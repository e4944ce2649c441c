-- ===== src/Loggers/Colour.antt =====
-- src/adapters/logging/stdio/stdio_logger.cpp: a coloured line is the plain line with colours.
use tpmkit.Base.{
  ℕ, ◌≡◌, refl, ap, sym, ◌∙◌, arith, Bool, true, false, List, [], ◌∷◌, ◌++◌, append_assoc, codes,
  ◌==◌, if◌then◌else◌,
}
use tpmkit.Logging.{LogLevel, trace, debug, info, warn, error, unlisted, LogRecord}
use tpmkit.Loggers.Line.{append_fields}
use tpmkit.Loggers.Stdio.{
  Surroundings, timestamp, ansi_sequence, reset_sequence, level_label, level_token, record_text,
}
use tpmkit.Loggers.Lines.{
  Plain, PlainKeys, timestamp-Plain, level_label-Plain, append_fields-Plain, both,
}

-- What a terminal shows: an escape character and all up to an `m` is left out.
abbrev pub shown_from : Bool → List ℕ → List ℕ
shown_from hidden [] = []
shown_from true (c ∷ cs) = if c == 109 then shown_from false cs else shown_from true cs
shown_from false (c ∷ cs) = if c == 27 then shown_from true cs else c ∷ shown_from false cs

abbrev pub shown : List ℕ → List ℕ
shown = shown_from false

shown-append : (xs ys : List ℕ) → Plain xs → shown (xs ++ ys) ≡ xs ++ shown ys
shown-append [] ys p = refl
shown-append (x ∷ xs) ys (large, p) =
    let other : (x == 27) ≡ false = ground (arith, large) in
    rw other (ap (λ l. x ∷ l) (shown-append xs ys p))

shown-Plain : (xs : List ℕ) → Plain xs → shown xs ≡ xs
shown-Plain [] p = refl
shown-Plain (x ∷ xs) (large, p) =
    let other : (x == 27) ≡ false = ground (arith, large) in
    rw other (ap (λ l. x ∷ l) (shown-Plain xs p))

shown-ansi_sequence :
    (level : LogLevel) (ys : List ℕ) → shown (ansi_sequence level ++ ys) ≡ shown ys
unfolding ansi_sequence
shown-ansi_sequence trace ys = refl
shown-ansi_sequence debug ys = refl
shown-ansi_sequence info ys = refl
shown-ansi_sequence warn ys = refl
shown-ansi_sequence error ys = refl
shown-ansi_sequence (unlisted n) ys = refl

shown-level_token :
    (level : LogLevel) (ys : List ℕ)
    → shown (level_token true level ++ ys) ≡ level_token false level ++ shown ys
unfolding level_token
shown-level_token level ys =
    let label = codes (level_label level) in
    ap shown (append_assoc (ansi_sequence level) (91 ∷ (label ++ (93 ∷ reset_sequence))) ys)
    ∙ shown-ansi_sequence level (91 ∷ ((label ++ (93 ∷ reset_sequence)) ++ ys))
    ∙ ap (λ l. 91 ∷ l)
        (ap shown (append_assoc label (93 ∷ reset_sequence) ys)
          ∙ shown-append label (93 ∷ (reset_sequence ++ ys)) (level_label-Plain level)
          ∙ sym (append_assoc label (93 ∷ []) (shown ys)))

level_token-Plain : (level : LogLevel) → Plain (level_token false level)
unfolding level_token
level_token-Plain level =
    (omega arith, both (codes (level_label level)) _ (level_label-Plain level) (omega arith, tt))

-- On a terminal a line with colours shows what the same line without colours shows, byte for
-- byte, if the message and the keys of the fields have no control characters.
pub shown-record_text :
    (s : Surroundings) (r : LogRecord)
    → Plain (codes r.message)
    → PlainKeys r.fields
    → (shown (record_text s true r) ≡ record_text s false r)
      × (shown (record_text s false r) ≡ record_text s false r)
unfolding record_text
shown-record_text s r message keys =
    let rest = 32 ∷ (codes r.message ++ append_fields r.fields) in
    let rest_plain = both (codes r.message) _ message (append_fields-Plain r.fields keys) in
    let time = timestamp-Plain s.utc in
    (
      shown-append (timestamp s.utc) (32 ∷ (level_token true r.level ++ rest)) time
          ∙ ap (λ l. timestamp s.utc ++ (32 ∷ l))
              (shown-level_token r.level rest
                ∙ ap (λ l. level_token false r.level ++ l)
                    (shown-Plain rest (omega arith, rest_plain))),
      shown-Plain _ (
          both (timestamp s.utc) _ time (
            omega arith,
            both (level_token false r.level) _ (level_token-Plain r.level)
                (omega arith, rest_plain),
          )),
    )
