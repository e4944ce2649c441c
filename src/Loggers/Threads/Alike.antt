-- ===== src/Loggers/Threads/Alike.antt =====
-- stdio_logger.cpp: the texts that `log` appends, joined, and outputs that are as good as each
-- other.
use tpmkit.Base.{
  codes, ℕ, ◌≡◌, refl, sym, ap, ◌∙◌, append-nil, append_assoc, inl, inr, Bool, true, false,
  Bool-cases, List, [], ◌∷◌, ◌++◌,
}
use tpmkit.Escape.{escape_value}
use tpmkit.Logging.{LogField, LogRecord}
use tpmkit.Effects.Tally.{tally-append}
use tpmkit.Loggers.Line.{append_fields}
use tpmkit.Loggers.Stdio.{Stream, Surroundings, level_token, record_text}
use tpmkit.Loggers.Threads.{field_pieces, pieces, on, same_stream, text_on}

abbrev pub joined : List (List ℕ) → List ℕ
joined [] = []
joined (p ∷ ps) = p ++ joined ps

joined-field_pieces : (fs : List LogField) → joined (field_pieces fs) ≡ append_fields fs
unfolding append_fields
joined-field_pieces [] = refl
joined-field_pieces (f ∷ fs) =
    ap (λ l. 32 ∷ (codes f.key ++ (61 ∷ (escape_value f.value ++ l)))) (joined-field_pieces fs)

pub joined-pieces :
    (s : Surroundings) (color : Bool) (r : LogRecord)
    → joined (pieces s color r) ≡ record_text s color r
unfolding pieces record_text level_token
joined-pieces s true r = rw (joined-field_pieces r.fields) (simp append_assoc)
joined-pieces s false r = rw (joined-field_pieces r.fields) (simp append_assoc)

-- Two outputs that give every stream the same bytes.
abbrev pub Alike : List (Stream × List ℕ) → List (Stream × List ℕ) → Type 0
Alike a b = (stream : Stream) → text_on stream a ≡ text_on stream b

pub Alike-last :
    (a b : List (Stream × List ℕ)) (chunk : Stream × List ℕ)
    → Alike a b
    → Alike (a ++ (chunk ∷ [])) (b ++ (chunk ∷ []))
Alike-last a b chunk alike stream =
    tally-append (on stream) a (chunk ∷ [])
    ∙ ap (λ l. l ++ text_on stream (chunk ∷ [])) (alike stream)
    ∙ sym (tally-append (on stream) b (chunk ∷ []))

on_twice :
    (st stream : Stream) (x y : List ℕ)
    → on st (stream, x) ++ on st (stream, y) ≡ on st (stream, x ++ y)
on_twice st stream x y = elim (Bool-cases (same_stream st stream)) [
  | inl same ↦ rw same refl
  | inr other ↦ rw other refl
]

-- Two chunks for one stream are as good as one.
pub Alike-joined :
    (a : List (Stream × List ℕ)) (stream : Stream) (x y : List ℕ)
    → Alike (a ++ ((stream, x) ∷ []) ++ ((stream, y) ∷ [])) (a ++ ((stream, x ++ y) ∷ []))
Alike-joined a stream x y st =
    tally-append (on st) (a ++ ((stream, x) ∷ [])) ((stream, y) ∷ [])
    ∙ ap (λ l. l ++ text_on st ((stream, y) ∷ [])) (tally-append (on st) a ((stream, x) ∷ []))
    ∙ rw
        (
          append-nil (on st (stream, x)),
          append-nil (on st (stream, y)),
          append_assoc (text_on st a) (on st (stream, x)) (on st (stream, y)),
          on_twice st stream x y,
        )
        (sym (
          tally-append (on st) a ((stream, x ++ y) ∷ [])
          ∙ rw (append-nil (on st (stream, x ++ y))) refl))
