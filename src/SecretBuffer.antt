-- ===== src/SecretBuffer.antt =====
-- include/tpmkit/secret_buffer.h and src/domain/secret_buffer.cpp: owners of secret bytes, and what
-- happens to the memory of the bytes. `mlock` is an argument: whether a call of it succeeds.
pub mod Account
use tpmkit.Base.{
  ℕ, Bool, true, false, ◌&&◌, List, [], ◌∷◌, ◌++◌, Option, none, some, length, if◌then◌else◌,
}
use tpmkit.TctiConfig.{is_empty}
use tpmkit.Slots.{at, put, is_place}

-- The bytes stand for the memory that holds them.
pub data Effect : Type 0 where
  lock_tried : List ℕ → Bool → Effect
  unlocked : List ℕ → Effect
  cleansed : List ℕ → Effect

-- `secret_buffer::impl`
pub record BufferImpl : Type 0 where
  pub bytes : List ℕ
  pub locked : Bool

-- `secret_buffer`
abbrev pub SecretBuffer : Type 0
SecretBuffer = Option BufferImpl

unfoldable pub cleanse : List ℕ → List Effect → List Effect
cleanse bytes h = if is_empty bytes then h else h ++ (cleansed bytes ∷ [])

unfoldable pub lock_memory :
    (List ℕ → List Effect → Bool) → List ℕ → List Effect → Bool × List Effect
lock_memory mlock bytes h =
    if is_empty bytes
    then (false, h)
    else (mlock bytes h, h ++ (lock_tried bytes (mlock bytes h) ∷ []))

unfoldable pub unlock_memory : List ℕ → List Effect → List Effect
unlock_memory bytes h = if is_empty bytes then h else h ++ (unlocked bytes ∷ [])

-- `secret_buffer::impl::impl`
unfoldable pub make_impl :
    (List ℕ → List Effect → Bool) → List ℕ → List Effect → BufferImpl × List Effect
unfolding lock_memory
make_impl mlock bytes h =
    let (locked, h') = lock_memory mlock bytes h in (record { bytes = bytes; locked = locked }, h')

-- The memory is unlocked, if it is locked, and then cleansed.
unfoldable pub clear : BufferImpl → List Effect → BufferImpl × List Effect
unfolding cleanse unlock_memory
clear buffer h = if is_empty buffer.bytes then (buffer, h) else (
  record { bytes = []; locked = false },
  cleanse buffer.bytes (if buffer.locked then unlock_memory buffer.bytes h else h),
)

unfoldable pub destroy_buffer : SecretBuffer → List Effect → List Effect
unfolding clear
destroy_buffer none h = h
destroy_buffer (some buffer) h = (clear buffer h).1

unfoldable pub empty : SecretBuffer → Bool
empty none = true
empty (some buffer) = is_empty buffer.bytes

unfoldable pub size : SecretBuffer → ℕ
size none = 0
size (some buffer) = length buffer.bytes

unfoldable pub view : SecretBuffer → List ℕ
view none = []
view (some buffer) = if is_empty buffer.bytes then [] else buffer.bytes

-- The buffers of a program, what has happened, and the bytes that the constructors were given.
pub record Memory : Type 0 where
  pub slots : List SecretBuffer
  pub effects : List Effect
  pub given : List (List ℕ)

pub data Use : Type 0 where
  default_construct : Use
  construct : List ℕ → Use
  move_construct : ℕ → Use
  -- the buffer at the first place takes over that at the second
  move_assign : ℕ → ℕ → Use
  destruct : ℕ → Use

-- The bytes are moved into the new buffer.
unfoldable pub constructed_from : (List ℕ → List Effect → Bool) → List ℕ → Memory → Memory
unfolding make_impl
constructed_from mlock bytes m =
    let (buffer, h) = make_impl mlock bytes m.effects in
    record { slots = some buffer ∷ m.slots; effects = h; given = bytes ∷ m.given }

-- As `unique_ptr` assigns: the source is released, its pointer stored, and what the target held
-- is destroyed last.
unfoldable pub assigned : ℕ → ℕ → Memory → Memory
unfolding destroy_buffer
assigned i j m =
    let emptied = put m.slots j none in
    record m {
      slots = put emptied i (at m.slots j);
      effects = destroy_buffer (at emptied i) m.effects;
    }

unfoldable pub dropped : ℕ → Memory → Memory
unfolding destroy_buffer
dropped i m = record m {
  slots = put m.slots i none;
  effects = destroy_buffer (at m.slots i) m.effects;
}

module _ (mlock : List ℕ → List Effect → Bool) where
  -- A use of a place that there is not does nothing.
  unfoldable pub use_buffer : Use → Memory → Memory
  unfolding constructed_from assigned dropped
  use_buffer default_construct m = record m { slots = none ∷ m.slots }
  use_buffer (construct bytes) m = constructed_from mlock bytes m
  use_buffer (move_construct i) m =
      if is_place m.slots i then record m { slots = at m.slots i ∷ put m.slots i none } else m
  use_buffer (move_assign i j) m =
      if is_place m.slots i && is_place m.slots j then assigned i j m else m
  use_buffer (destruct i) m = if is_place m.slots i then dropped i m else m

  -- The states of the memory that a program gets to.
  pub data Reach : Memory → Type 0 where
    begin : Reach (record { slots = []; effects = []; given = [] })
    used : {m : Memory} → Reach m → (u : Use) → Reach (use_buffer u m)
