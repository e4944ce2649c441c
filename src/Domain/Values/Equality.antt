-- ===== src/Domain/Values/Equality.antt =====
-- The equality operators of src/domain/pcr.
use tpmkit.Base.{◌≡◌, refl, ap, ◌↔◌, Bool, true, false, ◌&&◌, [], ◌∷◌, ◌==◌, ==_iff}
use tpmkit.Domain.Hash.{underlying, underlying-injective}
use tpmkit.Domain.Values.{
  ReadResult, EventResult, list_eq, algorithm_eq, index_eq, digest_value_eq, selection_eq, value_eq,
  read_result_eq, event_result_eq,
}

-- The test decides equality.
abbrev pub Decides {ℓ} : {A : Type ℓ} → (A → A → Bool) → Type ℓ
Decides {A} eq = (x y : A) → (eq x y ≡ true) ↔ (x ≡ y)

-- Two tests in a row decide both equations.
and_iff {ℓ κ} :
    {P : Type ℓ} {Q : Type κ} (a b : Bool)
    → (a ≡ true) ↔ P
    → (b ≡ true) ↔ Q
    → ((a && b) ≡ true) ↔ (P × Q)
and_iff true b (to, back) (tos, backs) = ((λ e. (to refl, tos e)), (λ (p, q). backs q))
and_iff false b (to, back) (tos, backs) = ((λ e. cc), (λ (p, q). back p))

list_eq-Decides {ℓ} : {A : Type ℓ} (eq : A → A → Bool) → Decides eq → Decides (list_eq eq)
list_eq-Decides eq decides [] [] = ((λ _. refl), (λ _. refl))
list_eq-Decides eq decides [] (y ∷ ys) = ((λ e. cc), (λ e. cc))
list_eq-Decides eq decides (x ∷ xs) [] = ((λ e. cc), (λ e. cc))
list_eq-Decides eq decides (x ∷ xs) (y ∷ ys) =
    let (to, back) =
      and_iff (eq x y) (list_eq eq xs ys) (decides x y) (list_eq-Decides eq decides xs ys) in
    ((λ e. let (head, tail) = to e in cc (head, tail)), (λ e. back (cc e, cc e)))

algorithm_eq-Decides : Decides algorithm_eq
unfolding algorithm_eq
algorithm_eq-Decides a b =
    ((λ e. underlying-injective a b ((==_iff _ _).0 e)), (λ e. (==_iff _ _).1 (ap underlying e)))

index_eq-Decides : Decides index_eq
unfolding index_eq
index_eq-Decides i j = (
  (λ e. let v = (==_iff i.value j.value).0 e in cc v),
  (λ e. (==_iff _ _).1 (ap (λ k. k.value) e)),
)

digest_value_eq-Decides : Decides digest_value_eq
unfolding digest_value_eq
digest_value_eq-Decides x y =
    let (to, back) =
      and_iff _ _ (algorithm_eq-Decides x.algorithm y.algorithm)
        (list_eq-Decides ◌==◌ ==_iff x.digest y.digest) in
    (
      (λ e. let (algorithms, digests) = to e in cc (algorithms, digests)),
      (λ e. back (ap (λ d. d.algorithm) e, ap (λ d. d.digest) e)),
    )

selection_eq-Decides : Decides selection_eq
unfolding selection_eq
selection_eq-Decides x y =
    let (to, back) =
      and_iff _ _ (algorithm_eq-Decides x.algorithm y.algorithm)
        (list_eq-Decides index_eq index_eq-Decides x.indices y.indices) in
    (
      (λ e. let (algorithms, indices) = to e in cc (algorithms, indices)),
      (λ e. back (ap (λ s. s.algorithm) e, ap (λ s. s.indices) e)),
    )

value_eq-Decides : Decides value_eq
unfolding value_eq
value_eq-Decides x y =
    let (to, back) =
      and_iff _ _ (index_eq-Decides x.index y.index) (digest_value_eq-Decides x.digest y.digest) in
    (
      (λ e. let (indices, digests) = to e in cc (indices, digests)),
      (λ e. back (ap (λ v. v.index) e, ap (λ v. v.digest) e)),
    )

-- Two results of an event compare equal exactly when they are the same value.
pub event_result_eq-Decides : (x y : EventResult) → (event_result_eq x y ≡ true) ↔ (x ≡ y)
unfolding event_result_eq
event_result_eq-Decides x y =
    let (to, back) = list_eq-Decides digest_value_eq digest_value_eq-Decides x.digests y.digests in
    ((λ e. let digests = to e in cc digests), (λ e. back (ap (λ r. r.digests) e)))

-- Two results of a read compare equal exactly when they are the same value: the same selection,
-- the same update counter, and the same PCRs with the same digests in the same order.
pub read_result_eq-Decides : (x y : ReadResult) → (read_result_eq x y ≡ true) ↔ (x ≡ y)
unfolding read_result_eq
read_result_eq-Decides x y =
    let (to, back) =
      and_iff _ _
        (and_iff _ _ (selection_eq-Decides x.actual_selection y.actual_selection)
          (==_iff x.update_counter y.update_counter))
        (list_eq-Decides value_eq value_eq-Decides x.values y.values) in
    (
      (λ e. let ((selections, counters), values) = to e in cc (selections, counters, values)),
      (λ e.
          back
            ((ap (λ r. r.actual_selection) e, ap (λ r. r.update_counter) e), ap (λ r. r.values) e)),
    )
