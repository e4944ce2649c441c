-- ===== src/TctiConfig/Shape.antt =====
-- Which configuration strings are accepted, and what of them is shown.
use tpmkit.Base.{
  ℕ, zero, suc, ◌≤◌, ◌≡◌, ◌≢◌, refl, ap, sym, ◌∙◌, ◌↔◌, inl, inr, arith, true, false, Bool-cases,
  List, [], ◌∷◌, ◌++◌, ==_iff, false≢true, length-append, Option-cases, some, length, take, All,
  ltb, ◌==◌, if◌then◌else◌,
}
use tpmkit.Outcome.{IsOk, ok, fails, input_error}
use tpmkit.TctiConfig.{
  is_space, trim_front, is_empty, trim_back, trim, find, has_name_args_shape, validate_string,
  is_valid_string_config, tcti_invalid_message,
}

-- The first character is no space.
abbrev pub StartsTight : List ℕ → Type 0
StartsTight [] = Unit
StartsTight (c ∷ cs) = is_space c ≡ false

-- The last character is no space.
abbrev pub EndsTight : List ℕ → Type 0
EndsTight [] = Unit
EndsTight (c ∷ []) = is_space c ≡ false
EndsTight (c ∷ d ∷ cs) = EndsTight (d ∷ cs)

length-trim_front : (v : List ℕ) → length (trim_front v) ≤ length v
unfolding trim_front
length-trim_front [] = omega arith
length-trim_front (c ∷ cs) = ground (arith, length-trim_front cs)

trim_front_tight : (v : List ℕ) → StartsTight v → trim_front v ≡ v
unfolding trim_front
trim_front_tight [] t = refl
trim_front_tight (c ∷ cs) t = rw t refl

trim_front_changed : (v : List ℕ) → length (trim_front v) ≡ length v → StartsTight v
unfolding trim_front
trim_front_changed [] e = tt
trim_front_changed (c ∷ cs) e = ground (arith, e, length-trim_front cs)

length-trim_back : (v : List ℕ) → length (trim_back v) ≤ length v
unfolding trim_back
length-trim_back [] = omega arith
length-trim_back (c ∷ cs) = ground (arith, length-trim_back cs)

trim_back_tight : (v : List ℕ) → EndsTight v → trim_back v ≡ v
unfolding trim_back
trim_back_tight [] t = refl
trim_back_tight (c ∷ []) t = rw t refl
trim_back_tight (c ∷ d ∷ cs) t = rw (trim_back_tight (d ∷ cs) t) refl

trim_back_same : (v : List ℕ) → length (trim_back v) ≡ length v → trim_back v ≡ v
unfolding trim_back
trim_back_same [] e = refl
trim_back_same (c ∷ cs) e = ground (arith, e, length-trim_back cs, trim_back_same cs)

trim_back_changed : (v : List ℕ) → length (trim_back v) ≡ length v → EndsTight v
unfolding trim_back
trim_back_changed [] e = tt
trim_back_changed (c ∷ []) e = ground (arith, e)
trim_back_changed (c ∷ d ∷ cs) e =
    trim_back_changed (d ∷ cs) (ground (arith, e, length-trim_back (d ∷ cs)))

-- Trimming keeps the length exactly when there is no outer space.
pub trim_iff : (v : List ℕ) → (length (trim v) ≡ length v) ↔ (StartsTight v × EndsTight v)
unfolding trim
trim_iff v = (
  (λ e.
      let front : length (trim_front v) ≡ length v =
        omega (arith, e, length-trim_front v, length-trim_back (trim_front v)) in
      let starts = trim_front_changed v front in
      let whole = trim_front_tight v starts in
      (starts, trim_back_changed v (ap (λ w. length (trim_back w)) (sym whole) ∙ e))),
  (λ (starts, ends).
      ap (λ w. length (trim_back w)) (trim_front_tight v starts)
      ∙ ap length (trim_back_tight v ends)),
)

pub trim_tight : (v : List ℕ) → StartsTight v → EndsTight v → trim v ≡ v
unfolding trim
trim_tight v starts ends = ap trim_back (trim_front_tight v starts) ∙ trim_back_tight v ends

-- A name with no colon, which is not empty, and what follows the first colon.
pub record Parts (v : List ℕ) : Type 0 where
  pub name : List ℕ
  pub args : List ℕ
  pub some_name : name ≢ []
  pub no_colon : All (λ c. c ≢ 58) name
  pub whole : v ≡ name ++ (58 ∷ args)

find-some :
    (v : List ℕ) (n : ℕ)
    → find 58 v ≡ some n
    → (args : List ℕ) × (v ≡ take n v ++ (58 ∷ args))
      × All (λ c. c ≢ 58) (take n v)
      × (length (take n v) ≡ n)
unfolding find
find-some [] n e = cc
find-some (c ∷ cs) zero e = (cs, ground (arith, e), tt, refl)
find-some (c ∷ cs) (suc n) e =
    let rest : find 58 cs ≡ some n = ground (arith, e) in
    let differs : c ≢ 58 = ground (arith, e) in
    let (args, whole, no_colon, size) = find-some cs n rest in
    (args, ap (◌∷◌ c) whole, (differs, no_colon), ap suc size)

find-append :
    (name args : List ℕ)
    → All (λ c. c ≢ 58) name
    → find 58 (name ++ (58 ∷ args)) ≡ some (length name)
unfolding find
find-append [] args h = refl
find-append (c ∷ cs) args h = ground (arith, h, find-append cs args h.1)

take_name : (name rest : List ℕ) → take (length name) (name ++ rest) ≡ name
take_name [] rest = refl
take_name (c ∷ cs) rest = ap (◌∷◌ c) (take_name cs rest)

has_shape_lem : (v : List ℕ) → has_name_args_shape v ≡ true → Parts v
unfolding has_name_args_shape
has_shape_lem v h = elim (Option-cases (find 58 v)) [
  | inl nowhere ↦ cc (rw nowhere at h)
  | inr (n, there) ↦
      let later : ltb 0 n ≡ true = rw there at h in
      let (args, whole, no_colon, size) = find-some v n there in
      record {
        name = take n v;
        args = args;
        some_name = λ e. absurd (ground (arith, later, size, ap length e));
        no_colon = no_colon;
        whole = whole;
      }
]

Parts-shape : (v : List ℕ) (p : Parts v) → has_name_args_shape v ≡ true
unfolding has_name_args_shape
Parts-shape v p =
    let found : find 58 v ≡ some (length p.name) =
      rw p.whole (find-append p.name p.args p.no_colon) in
    rw found (positive p.name p.some_name)
  where
    positive : (name : List ℕ) → name ≢ [] → ltb 0 (length name) ≡ true
    positive [] h = absurd (h refl)
    positive (c ∷ cs) h = ground arith

-- The strings that name a TCTI with its arguments.
pub record IsConfig (v : List ℕ) : Type 0 where
  pub parts : Parts v
  pub starts : StartsTight v
  pub ends : EndsTight v

pub is_valid_string_config_iff : (v : List ℕ) → (is_valid_string_config v ≡ true) ↔ IsConfig v
unfolding is_valid_string_config
is_valid_string_config_iff v = (to, back)
  where
    to : is_valid_string_config v ≡ true → IsConfig v
    to h =
        let same : length (trim v) ≡ length v = ground (arith, h) in
        let (starts, ends) = (trim_iff v).0 same in
        let shaped : has_name_args_shape (trim v) ≡ true = ground (arith, h) in
        record {
          parts =
              has_shape_lem v (ap has_name_args_shape (sym (trim_tight v starts ends)) ∙ shaped);
          starts = starts;
          ends = ends;
        }

    filled : (w : List ℕ) → Parts w → is_empty w ≡ false
    filled [] p = absurd (ground (arith, length-append p.name (58 ∷ p.args), ap length p.whole))
    filled (c ∷ cs) p = refl

    back : IsConfig v → is_valid_string_config v ≡ true
    back c =
        let untouched : trim v ≡ v = trim_tight v c.starts c.ends in
        let shaped = Parts-shape v c.parts in
        let full = filled v c.parts in
        let same : (length v == length v) ≡ true = (==_iff _ _).1 refl in
        rw (untouched, full, same, shaped) refl

-- The loader and the fake context take and refuse the same strings.
pub validate_string_lem :
    (v : List ℕ)
    → validate_string v
      ≡ (if is_valid_string_config v then ok (trim v) else fails input_error tcti_invalid_message)
unfolding validate_string is_valid_string_config
validate_string_lem v = ground arith

-- A configuration string is accepted exactly when it is a non-empty name without a colon, a
-- colon and any arguments, with no space at either end.
pub validate_string-IsOk : (v : List ℕ) → IsOk (validate_string v) ↔ IsConfig v
validate_string-IsOk v = elim (Bool-cases (is_valid_string_config v)) [
  | inl valid ↦
      rw (validate_string_lem v, valid) ((λ _. (is_valid_string_config_iff v).0 valid), (λ _. tt))
  | inr invalid ↦
      rw (validate_string_lem v, invalid)
        (
          (λ e. absurd e),
          (λ c. absurd (false≢true (sym invalid ∙ (is_valid_string_config_iff v).1 c))),
        )
]
