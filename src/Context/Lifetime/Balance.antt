-- ===== src/Context/Lifetime/Balance.antt =====
-- tpm_context.h and tpm_context.cpp: the contexts of a program hold all that is held of the TSS.
use tpmkit.Base.{
  ℕ, zero, suc, ◌+◌, ◌≤◌, ◌≡◌, refl, ap, sym, ◌∙◌, arith, Bool, true, false, false≢true, List, [],
  ◌∷◌, none, some, Bool-cases, inl, inr,
}
use tpmkit.Outcome.{Outcome, ok, unexpected, raised}
use tpmkit.Translation.{Codes}
use tpmkit.Context.{Context, destroy}
use tpmkit.Context.Session.{Effect, tcti_given, ContextApi}
use tpmkit.Context.Holdings.{
  Held, nothing, one_tcti, esys_if, ◌⊕◌, holdings, holdings-append, kept, plus_nothing, plus_assoc,
  plus_comm,
}
use tpmkit.Context.Ownership.Steps.{kept-nothing, context_held}
use tpmkit.Context.Ownership.Creation.{
  owned_held, create_context_from_config-Leaves, create_context_from_owned_tcti-Leaves,
  destroy-Leaves,
}
use tpmkit.Context.Lifetime.{
  World, Action, create, create_owned, move_construct, move_assign, destruct, admit, given_effects,
  moved_to_new, moved_to, destructed, act, Reach, begin, acted,
}
use tpmkit.Slots.{at, put, is_place, is_place-put}

-- What all contexts hold.
abbrev pub total : List Context → Held
total [] = nothing
total (x ∷ xs) = context_held x ⊕ total xs

total-put :
    (xs : List Context) (i : ℕ) (y : Context)
    → is_place xs i ≡ true
    → total (put xs i y) ⊕ context_held (at xs i) ≡ total xs ⊕ context_held y
total-put [] i y p = absurd (false≢true p)
total-put (x ∷ xs) zero y p = ground arith
total-put (x ∷ xs) (suc i) y p =
    swapped (context_held x) (total (put xs i y)) (context_held (at xs i)) (total xs)
      (context_held y) (total-put xs i y p)
  where
    swapped : (a b d e f : Held) → b ⊕ d ≡ e ⊕ f → (a ⊕ b) ⊕ d ≡ (a ⊕ e) ⊕ f
    swapped a b d e f eq = plus_assoc a b d ∙ ap (λ k. a ⊕ k) eq ∙ sym (plus_assoc a e f)

total_ordered : (xs : List Context) → (total xs).esyss + 0 ≤ (total xs).tctis
total_ordered [] = omega arith
total_ordered (none ∷ xs) = let e = total_ordered xs in omega arith
total_ordered (some impl ∷ xs) = one_more impl.esys (total xs) (total_ordered xs)
  where
    one_more :
        (esys : Bool) (k : Held)
        → k.esyss + 0 ≤ k.tctis
        → (one_tcti ⊕ esys_if esys ⊕ k).esyss + 0 ≤ (one_tcti ⊕ esys_if esys ⊕ k).tctis
    one_more true k o = omega arith
    one_more false k o = omega arith

-- The effects of a world leave just what its contexts hold.
abbrev pub Balanced : World → Type 0
Balanced w = holdings w.effects ≡ some (total w.slots)

admit-Balanced :
    (w : World) (r : Outcome Context × List Effect)
    → holdings r.1 ≡ some (total w.slots ⊕ kept context_held r.0)
    → Balanced (admit w r)
admit-Balanced w (ok ctx, h) e = e ∙ ap some (plus_comm (total w.slots) (context_held ctx))
admit-Balanced w (unexpected x, h) e = e ∙ ap some (plus_nothing (total w.slots))
admit-Balanced w (raised x, h) e = e ∙ ap some (plus_nothing (total w.slots))

moved_to_new-Balanced :
    (w : World) (i : ℕ) → is_place w.slots i ≡ true → Balanced w → Balanced (moved_to_new w i)
unfolding moved_to_new
moved_to_new-Balanced w i p e =
    e
    ∙ ap some (
        sym (plus_nothing (total w.slots))
        ∙ sym (total-put w.slots i none p)
        ∙ plus_comm (total (put w.slots i none)) (context_held (at w.slots i)))

-- A context that is destroyed gives back what it held.
destroy-holdings :
    (h : List Effect) (ctx : Context) (xs : List Context)
    → holdings h ≡ some (total xs ⊕ context_held ctx)
    → holdings (destroy ctx h).1 ≡ some (total xs)
destroy-holdings h ctx xs e =
    (destroy-Leaves ctx).leaves h (total xs) (total_ordered xs) e
    ∙ ap some (ap (λ k. total xs ⊕ k) (kept-nothing (destroy ctx h).0) ∙ plus_nothing (total xs))

destructed-Balanced :
    (w : World) (i : ℕ) → is_place w.slots i ≡ true → Balanced w → Balanced (destructed w i)
unfolding destructed
destructed-Balanced w i p e =
    destroy-holdings w.effects (at w.slots i) (put w.slots i none)
      (e ∙ ap some (sym (plus_nothing (total w.slots)) ∙ sym (total-put w.slots i none p)))

moved_to-Balanced :
    (w : World) (i j : ℕ)
    → is_place w.slots i ≡ true
    → is_place w.slots j ≡ true
    → Balanced w
    → Balanced (moved_to w i j)
unfolding moved_to
moved_to-Balanced w i j p q e =
    let emptied = put w.slots j none in
    destroy-holdings w.effects (at emptied i) (put emptied i (at w.slots j)) (
      e
      ∙ ap some (
          sym (plus_nothing (total w.slots))
          ∙ sym (total-put w.slots j none q)
          ∙ sym (total-put emptied i (at w.slots j) (is_place-put w.slots i j none ∙ p))))

owned_lem :
    (handle : Bool) (h : List Effect) (k : Held)
    → holdings h ≡ some k
    → holdings (given_effects handle h) ≡ some (k ⊕ owned_held handle)
owned_lem true h k e = holdings-append h (tcti_given ∷ []) k e ∙ ap some (ground arith)
owned_lem false h k e = e ∙ ap some (sym (plus_nothing k))

module _ (c : Codes) (api : ContextApi) where
  act-Balanced : (w : World) (a : Action) → Balanced w → Balanced (act c api a w)
  unfolding act
  act-Balanced w (create config) e = admit-Balanced w _ (
      (create_context_from_config-Leaves c api config).leaves w.effects (total w.slots)
        (total_ordered w.slots) (e ∙ ap some (sym (plus_nothing (total w.slots)))))
  act-Balanced w (create_owned handle mode log) e = admit-Balanced w _ (
      (create_context_from_owned_tcti-Leaves c api handle mode log).leaves
        (given_effects handle w.effects) (total w.slots) (total_ordered w.slots)
        (owned_lem handle w.effects (total w.slots) e))
  act-Balanced w (move_construct i) e = elim (Bool-cases (is_place w.slots i)) [
    | inl p ↦ rw p (moved_to_new-Balanced w i p e)
    | inr n ↦ rw n e
  ]
  act-Balanced w (move_assign i j) e = elim (Bool-cases (is_place w.slots i)) [
    | inl p ↦ elim (Bool-cases (is_place w.slots j)) [
      | inl q ↦ rw (p, q) (moved_to-Balanced w i j p q e)
      | inr n ↦ rw (p, n) e
    ]
    | inr n ↦ rw n e
  ]
  act-Balanced w (destruct i) e = elim (Bool-cases (is_place w.slots i)) [
    | inl p ↦ rw p (destructed-Balanced w i p e)
    | inr n ↦ rw n e
  ]

  -- Whatever a program creates, moves, assigns and destroys, in any order and whatever the TSS
  -- answers, if an owned handle comes with a deleter: no effect gives back what is not held, closes a TCTI context under an open ESYS
  -- context or opens an ESYS context without one, none is a call of a null function, and what is
  -- held at the end is one TCTI context for each context that is not null and one ESYS context for
  -- each that has one, and no description of a TCTI.
  pub Reach-Balanced : (w : World) → Reach c api w → Balanced w
  Reach-Balanced w begin = refl
  Reach-Balanced w (acted {w = v} r a) = act-Balanced v a (Reach-Balanced v r)
