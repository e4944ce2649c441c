-- ===== src/Domain/Index/Sets.antt =====
-- Sets of PCR indices (`std::set<index>` of index.h) as ascending lists.
use tpmkit.Base.{
  ℕ, zero, suc, ◌+◌, ◌≤◌, ◌<◌, ◌≡◌, refl, ap, Bool, false, ◌||◌, ◌&&◌, ltb, List, [], ◌∷◌, ◌++◌,
  arith, ◌==◌, if◌then◌else◌, Bool-cases, inl, inr,
}
use tpmkit.Domain.Index.{Index, insert}

-- Every element lies at or above `lo`, and each above the one before it.
abbrev pub Ascends : ℕ → List Index → Type 0
Ascends lo [] = Unit {0}
Ascends lo (j ∷ js) = (lo ≤ j.value) × Ascends (suc j.value) js

-- Every element lies below `hi`.
abbrev pub Below : ℕ → List Index → Type 0
Below hi [] = Unit {0}
Below hi (j ∷ js) = (j.value < hi) × Below hi js

abbrev pub member : ℕ → List Index → Bool
member k [] = false
member k (j ∷ js) = j.value == k || member k js

-- The indices at which `p` holds among the `n` numbers from `lo` on.
unfoldable pub picked : (ℕ → Bool) → ℕ → ℕ → List Index
picked p lo zero = []
picked p lo (suc n) =
    let rest = picked p (suc lo) n in if p lo then record { value = lo } ∷ rest else rest

pub Ascends-mono : (lo hi : ℕ) (js : List Index) → lo ≤ hi → Ascends hi js → Ascends lo js
Ascends-mono lo hi [] h a = tt
Ascends-mono lo hi (j ∷ js) h a = (omega arith, a.1)

pub Below-mono : (hi hi' : ℕ) (js : List Index) → hi ≤ hi' → Below hi js → Below hi' js
Below-mono hi hi' [] h b = tt
Below-mono hi hi' (j ∷ js) h b = (omega arith, Below-mono hi hi' js h b.1)

pub member_below : (k lo : ℕ) (js : List Index) → Ascends lo js → k < lo → member k js ≡ false
member_below k lo [] a h = refl
member_below k lo (j ∷ js) a h = ground (arith, member_below k (suc j.value) js a.1)

pub picked-Ascends : (p : ℕ → Bool) (lo n : ℕ) → Ascends lo (picked p lo n)
unfolding picked
picked-Ascends p lo zero = tt
picked-Ascends p lo (suc n) =
    ground (arith, picked-Ascends p (suc lo) n, Ascends-mono lo (suc lo) (picked p (suc lo) n))

pub picked-Below : (p : ℕ → Bool) (lo n hi : ℕ) → lo + n ≤ hi → Below hi (picked p lo n)
unfolding picked
picked-Below p lo zero hi h = tt
picked-Below p lo (suc n) hi h = ground (arith, picked-Below p (suc lo) n hi (omega arith))

pub member-picked :
    (p : ℕ → Bool) (lo n k : ℕ) → lo ≤ k → k < lo + n → member k (picked p lo n) ≡ p k
unfolding picked
member-picked p lo zero k h l = absurd (omega arith)
member-picked p lo (suc n) k h l = elim (Bool-cases (lo == k)) [
  | inl e ↦
      let same : lo ≡ k = ground arith in
      ground (
        arith,
        ap p same,
        member_below k (suc lo) (picked p (suc lo) n) (picked-Ascends p (suc lo) n),
      )
  | inr e ↦ ground (arith, member-picked p (suc lo) n k)
]

pub member_above : (k hi : ℕ) (js : List Index) → Below hi js → hi ≤ k → member k js ≡ false
member_above k hi [] b h = refl
member_above k hi (j ∷ js) b h = ground (arith, member_above k hi js b.1)

-- The membership test of what is picked from 0 on.
pub member-picked_zero : (p : ℕ → Bool) (n k : ℕ) → member k (picked p 0 n) ≡ (ltb k n && p k)
member-picked_zero p n k = elim (Bool-cases (ltb k n)) [
  | inl below ↦ rw below (member-picked p 0 n k (omega arith) (ground arith))
  | inr above ↦
      rw above (member_above k n (picked p 0 n) (picked-Below p 0 n n (omega arith)) (ground arith))
]

-- A set is what its membership test picks out of a range that covers it.
pub picked-member :
    (p : ℕ → Bool) (lo n : ℕ) (js : List Index)
    → ((k : ℕ) → lo ≤ k → k < lo + n → p k ≡ member k js)
    → Ascends lo js
    → Below (lo + n) js
    → picked p lo n ≡ js
unfolding picked
picked-member p lo zero [] same a b = refl
picked-member p lo zero (j ∷ js) same a b = absurd (omega arith)
picked-member p lo (suc n) [] same a b =
    ground
      (arith, same lo, picked-member p (suc lo) n [] (λ k h l. same k (omega arith) (omega arith)))
picked-member p lo (suc n) (j ∷ js) same a b = elim (Bool-cases (j.value == lo)) [
  | inl e ↦ ground (
    arith,
    same lo,
    picked-member p (suc lo) n js (λ k h l. ground (arith, same k))
        (Ascends-mono (suc lo) (suc j.value) js (ground arith) a.1)
        (Below-mono (lo + suc n) (suc lo + n) js (omega arith) b.1),
  )
  | inr e ↦ ground (
    arith,
    same lo,
    member_below lo (suc lo) (j ∷ js) (ground arith),
    picked-member p (suc lo) n (j ∷ js) (λ k h l. same k (omega arith) (omega arith)) (ground arith)
        (Below-mono (lo + suc n) (suc lo + n) (j ∷ js) (omega arith) b),
  )
]

-- An element above all others goes to the end.
pub insert_last : (i : Index) (js : List Index) → Below i.value js → insert i js ≡ js ++ (i ∷ [])
unfolding insert
insert_last i [] b = refl
insert_last i (j ∷ js) b = ground (arith, insert_last i js b.1)

pub append-Below : (hi : ℕ) (js ks : List Index) → Below hi js → Below hi ks → Below hi (js ++ ks)
append-Below hi [] ks b c = c
append-Below hi (j ∷ js) ks b c = (b.0, append-Below hi js ks b.1 c)

pub insert-Ascends :
    (lo : ℕ) (i : Index) (js : List Index) → lo ≤ i.value → Ascends lo js → Ascends lo (insert i js)
unfolding insert
insert-Ascends lo i [] h a = (h, tt)
insert-Ascends lo i (j ∷ js) h a =
    ground (arith, insert-Ascends (suc j.value) i js, Ascends-mono (suc i.value) (suc j.value) js)

pub insert-Below :
    (hi : ℕ) (i : Index) (js : List Index) → i.value < hi → Below hi js → Below hi (insert i js)
unfolding insert
insert-Below hi i [] h b = (h, tt)
insert-Below hi i (j ∷ js) h b = ground (arith, insert-Below hi i js)

pub member-insert :
    (k : ℕ) (i : Index) (js : List Index) → member k (insert i js) ≡ (i.value == k || member k js)
unfolding insert
member-insert k i [] = refl
member-insert k i (j ∷ js) = ground (arith, member-insert k i js)
