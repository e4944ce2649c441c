-- ===== src/Context/Lifetime.antt =====
-- include/tpmkit/tpm_context.h and src/adapters/tpm2_esys/context/tpm_context.cpp: the contexts of a
-- program as they are created, moved and destroyed, in any order.
pub mod Balance
use tpmkit.Base.{ℕ, zero, suc, Bool, true, false, ◌&&◌, List, [], ◌∷◌, ◌++◌, none, if◌then◌else◌}
use tpmkit.Outcome.{Outcome, ok, unexpected, raised}
use tpmkit.Translation.{Codes}
use tpmkit.Context.{
  ContextConfig, Context, destroy, create_context_from_config, create_context_from_owned_tcti,
}
use tpmkit.Context.Session.{StartupMode, Effect, tcti_given, ContextApi}
use tpmkit.Slots.{at, put, is_place}

-- The `tpm_context` objects of a program, and what has happened.
pub record World : Type 0 where
  pub slots : List Context
  pub effects : List Effect

pub data Action : Type 0 where
  create : ContextConfig → Action
  -- with a handle or with null; a handle comes with a deleter
  create_owned : Bool → StartupMode → Bool → Action
  -- a new context from an old one, by its place
  move_construct : ℕ → Action
  -- the context at the first place takes over that at the second
  move_assign : ℕ → ℕ → Action
  destruct : ℕ → Action

-- The end of a creation: a new context, or an error.
abbrev pub admit : World → Outcome Context × List Effect → World
admit w (ok ctx, h) = record { slots = ctx ∷ w.slots; effects = h }
admit w (unexpected e, h) = record w { effects = h }
admit w (raised x, h) = record w { effects = h }

abbrev pub given_effects : Bool → List Effect → List Effect
given_effects true h = h ++ (tcti_given ∷ [])
given_effects false h = h

-- A move empties the place that it is from.
unfoldable pub moved_to_new : World → ℕ → World
moved_to_new w i = record w { slots = at w.slots i ∷ put w.slots i none }

-- As `unique_ptr` assigns: the source is released, its pointer stored, and what the target held
-- is destroyed last; so an assignment to itself keeps the context.
unfoldable pub moved_to : World → ℕ → ℕ → World
moved_to w i j =
    let emptied = put w.slots j none in
    record { slots = put emptied i (at w.slots j); effects = (destroy (at emptied i) w.effects).1 }

-- The place is null after it.
unfoldable pub destructed : World → ℕ → World
destructed w i = record {
  slots = put w.slots i none;
  effects = (destroy (at w.slots i) w.effects).1;
}

module _ (c : Codes) (api : ContextApi) where
  -- An action on a place that there is not does nothing.
  unfoldable pub act : Action → World → World
  unfolding moved_to_new moved_to destructed
  act (create config) w = admit w (create_context_from_config c api config w.effects)
  act (create_owned handle mode log) w =
      admit w
        (create_context_from_owned_tcti c api handle true mode log (given_effects handle w.effects))
  act (move_construct i) w = if is_place w.slots i then moved_to_new w i else w
  act (move_assign i j) w = if is_place w.slots i && is_place w.slots j then moved_to w i j else w
  act (destruct i) w = if is_place w.slots i then destructed w i else w

  -- The worlds that a program gets to.
  pub data Reach : World → Type 0 where
    begin : Reach (record { slots = []; effects = [] })
    acted : {w : World} → Reach w → (a : Action) → Reach (act a w)
