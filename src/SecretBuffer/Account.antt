-- ===== src/SecretBuffer/Account.antt =====
-- src/domain/secret_buffer.cpp: every secret is cleansed once, and what is locked is unlocked.
use tpmkit.Base.{
  ℕ, ◌+◌, ◌≡◌, refl, ◌∙◌, arith, Bool, true, false, List, [], ◌∷◌, ◌++◌, none, some, Bool-cases,
  inl, inr, if◌then◌else◌,
}
use tpmkit.Effects.Sum.{sum, sum-last}
use tpmkit.Slots.{at, put, is_place, is_place-put, weight, weight_of, weight-put}
use tpmkit.SecretBuffer.{
  Effect, lock_tried, unlocked, cleansed, BufferImpl, SecretBuffer, cleanse, lock_memory,
  unlock_memory, make_impl, clear, destroy_buffer, Memory, Use, default_construct, construct,
  move_construct, move_assign, destruct, constructed_from, assigned, dropped, use_buffer, Reach,
  begin, used,
}

module _ (f : List ℕ → ℕ) where
  -- What a measure of secrets makes of an effect.
  abbrev pub cleanses : Effect → ℕ
  cleanses (lock_tried bytes ok) = 0
  cleanses (unlocked bytes) = 0
  cleanses (cleansed bytes) = f bytes

  abbrev pub locks : Effect → ℕ
  locks (lock_tried bytes ok) = if ok then f bytes else 0
  locks (unlocked bytes) = 0
  locks (cleansed bytes) = 0

  abbrev pub unlocks : Effect → ℕ
  unlocks (lock_tried bytes ok) = 0
  unlocks (unlocked bytes) = f bytes
  unlocks (cleansed bytes) = 0

  abbrev pub secret : BufferImpl → ℕ
  secret buffer = f buffer.bytes

  abbrev pub locked_secret : BufferImpl → ℕ
  locked_secret buffer = if buffer.locked then f buffer.bytes else 0

  -- All that was given is cleansed or still held, and all that was locked is unlocked or held.
  pub record Accounts (m : Memory) : Type 0 where
    pub secrets : sum f m.given ≡ sum cleanses m.effects + weight secret m.slots
    pub pages : sum locks m.effects ≡ sum unlocks m.effects + weight locked_secret m.slots

  -- What the destruction of a buffer adds to each account.
  record Settles (buffer : SecretBuffer) (h h' : List Effect) : Type 0 where
    cleans : sum cleanses h' ≡ sum cleanses h + weight_of secret buffer
    frees : sum unlocks h' ≡ sum unlocks h + weight_of locked_secret buffer
    same : sum locks h' ≡ sum locks h

  destroy_buffer-Settles :
      f [] ≡ 0
      → (buffer : SecretBuffer) (h : List Effect) → Settles buffer h (destroy_buffer buffer h)
  unfolding destroy_buffer clear cleanse unlock_memory
  destroy_buffer-Settles zero_f none h = record {
    cleans = omega arith;
    frees = omega arith;
    same = refl;
  }
  destroy_buffer-Settles zero_f (some buffer) h = cleared buffer.bytes buffer.locked
    where
      cleared :
          (bytes : List ℕ) (locked : Bool)
          → Settles
              (some (record { bytes = bytes; locked = locked }))
              h
              (destroy_buffer (some (record { bytes = bytes; locked = locked })) h)
      cleared [] true = record { cleans = omega arith; frees = omega arith; same = refl }
      cleared [] false = record { cleans = omega arith; frees = omega arith; same = refl }
      cleared (b ∷ bytes) true =
          let h' = h ++ (unlocked (b ∷ bytes) ∷ []) in
          let c1 = sum-last cleanses h (unlocked (b ∷ bytes)) in
          let c2 = sum-last cleanses h' (cleansed (b ∷ bytes)) in
          let u1 = sum-last unlocks h (unlocked (b ∷ bytes)) in
          let u2 = sum-last unlocks h' (cleansed (b ∷ bytes)) in
          let l1 = sum-last locks h (unlocked (b ∷ bytes)) in
          let l2 = sum-last locks h' (cleansed (b ∷ bytes)) in
          record { cleans = omega arith; frees = omega arith; same = omega arith }
      cleared (b ∷ bytes) false =
          let c2 = sum-last cleanses h (cleansed (b ∷ bytes)) in
          let u2 = sum-last unlocks h (cleansed (b ∷ bytes)) in
          let l2 = sum-last locks h (cleansed (b ∷ bytes)) in
          record { cleans = omega arith; frees = omega arith; same = omega arith }

  dropped-Accounts :
      f [] ≡ 0
      → (m : Memory) (i : ℕ) → is_place m.slots i ≡ true
      → Accounts m
      → Accounts (dropped i m)
  unfolding dropped
  dropped-Accounts zero_f m i p a =
      let s = destroy_buffer-Settles zero_f (at m.slots i) m.effects in
      let w = weight-put secret m.slots i none p in
      let v = weight-put locked_secret m.slots i none p in
      let held = a.secrets in
      let locked = a.pages in
      let cleans = s.cleans in
      let frees = s.frees in
      let same = s.same in record { secrets = omega arith; pages = omega arith }

  assigned-Accounts :
      f [] ≡ 0
      → (m : Memory) (i j : ℕ) → is_place m.slots i ≡ true
      → is_place m.slots j ≡ true
      → Accounts m
      → Accounts (assigned i j m)
  unfolding assigned
  assigned-Accounts zero_f m i j p q a =
      let emptied = put m.slots j none in
      let s = destroy_buffer-Settles zero_f (at emptied i) m.effects in
      let w = weight-put secret m.slots j none q in
      let v = weight-put locked_secret m.slots j none q in
      let place = is_place-put m.slots i j none ∙ p in
      let w' = weight-put secret emptied i (at m.slots j) place in
      let v' = weight-put locked_secret emptied i (at m.slots j) place in
      let held = a.secrets in
      let locked = a.pages in
      let cleans = s.cleans in
      let frees = s.frees in
      let same = s.same in record { secrets = omega arith; pages = omega arith }

  constructed-Accounts :
      f [] ≡ 0
      → (mlock : List ℕ → List Effect → Bool) (bytes : List ℕ) (m : Memory) → Accounts m
      → Accounts (constructed_from mlock bytes m)
  unfolding constructed_from make_impl lock_memory
  constructed-Accounts zero_f mlock [] m a =
      let held = a.secrets in
      let locked = a.pages in record { secrets = omega arith; pages = omega arith }
  constructed-Accounts zero_f mlock (b ∷ bytes) m a =
      let tried = lock_tried (b ∷ bytes) (mlock (b ∷ bytes) m.effects) in
      let c1 = sum-last cleanses m.effects tried in
      let u1 = sum-last unlocks m.effects tried in
      let l1 = sum-last locks m.effects tried in
      let held = a.secrets in
      let locked = a.pages in record { secrets = omega arith; pages = omega arith }

  moved-Accounts :
      (m : Memory) (i : ℕ)
      → is_place m.slots i ≡ true
      → Accounts m
      → Accounts (record m { slots = at m.slots i ∷ put m.slots i none })
  moved-Accounts m i p a =
      let w = weight-put secret m.slots i none p in
      let v = weight-put locked_secret m.slots i none p in
      let held = a.secrets in
      let locked = a.pages in record { secrets = omega arith; pages = omega arith }

  module _ (mlock : List ℕ → List Effect → Bool) where
    use-Accounts : f [] ≡ 0 → (m : Memory) (u : Use) → Accounts m → Accounts (use_buffer mlock u m)
    unfolding use_buffer
    use-Accounts zero_f m default_construct a =
        let held = a.secrets in
        let locked = a.pages in record { secrets = omega arith; pages = omega arith }
    use-Accounts zero_f m (construct bytes) a = constructed-Accounts zero_f mlock bytes m a
    use-Accounts zero_f m (move_construct i) a = elim (Bool-cases (is_place m.slots i)) [
      | inl p ↦ rw p (moved-Accounts m i p a)
      | inr n ↦ rw n a
    ]
    use-Accounts zero_f m (move_assign i j) a = elim (Bool-cases (is_place m.slots i)) [
      | inl p ↦ elim (Bool-cases (is_place m.slots j)) [
        | inl q ↦ rw (p, q) (assigned-Accounts zero_f m i j p q a)
        | inr n ↦ rw (p, n) a
      ]
      | inr n ↦ rw n a
    ]
    use-Accounts zero_f m (destruct i) a = elim (Bool-cases (is_place m.slots i)) [
      | inl p ↦ rw p (dropped-Accounts zero_f m i p a)
      | inr n ↦ rw n a
    ]

    -- Whatever a program constructs, moves, assigns and destroys, in any order, and whichever
    -- calls of `mlock` succeed: by every measure of secrets that counts an empty one as nothing,
    -- what the constructors were given is what was cleansed and what buffers still hold, and what
    -- was locked is what was unlocked and what locked buffers still hold.
    pub Reach-Accounts : f [] ≡ 0 → (m : Memory) → Reach mlock m → Accounts m
    Reach-Accounts zero_f m begin = record { secrets = refl; pages = refl }
    Reach-Accounts zero_f m (used {m = before} r u) =
        use-Accounts zero_f before u (Reach-Accounts zero_f before r)
