-- ===== src/Testing/FakeTcti.antt =====
-- include/tpmkit/testing/fake_tcti.h and src/adapters/mock/fake_tcti.cpp: a TCTI context that
-- answers from a queue. A factory is a function of the command that was sent last, and does not
-- call back.
pub mod Exchange
pub mod Retry
use tpmkit.Base.{
  ℕ, zero, suc, ◌+◌, ◌%◌, ◌^◌, Bool, true, false, not, ◌||◌, ◌&&◌, List, [], ◌∷◌, ◌++◌, Option,
  none, some, length, take, ltb, ◌==◌, if◌then◌else◌,
}

-- `TSS2_RC_SUCCESS` and the codes `TSS2_TCTI_RC_...`
pub record TctiCodes : Type 0 where
  pub success : ℕ
  pub bad_reference : ℕ
  pub insufficient_buffer : ℕ
  pub io_error : ℕ
  pub bad_sequence : ℕ

pub data QueuedResult : Type 0 where
  response_bytes : List ℕ → QueuedResult
  response_factory : (List ℕ → List ℕ) → QueuedResult
  failure_rc : ℕ → QueuedResult
  transmit_failure_rc : ℕ → QueuedResult

-- `owner` says that the owner of the storage is not null.
pub record FakeTcti : Type 0 where
  pub queue : List QueuedResult
  pub transmitted_commands : List (List ℕ)
  pub transmits_observed : ℕ
  pub finalizes_observed : ℕ
  pub owner : Bool

abbrev pub new_tcti : FakeTcti
new_tcti = record {
  queue = [];
  transmitted_commands = [];
  transmits_observed = 0;
  finalizes_observed = 0;
  owner = true;
}

unfoldable pub pending_responses : FakeTcti → ℕ
pending_responses t = length t.queue

abbrev push : QueuedResult → FakeTcti → FakeTcti
push q t = record t { queue = t.queue ++ (q ∷ []) }

unfoldable pub push_failure : ℕ → FakeTcti → FakeTcti
push_failure rc t = push (failure_rc (rc % 2 ^ 32)) t

unfoldable pub push_transmit_failure : ℕ → FakeTcti → FakeTcti
push_transmit_failure rc t = push (transmit_failure_rc (rc % 2 ^ 32)) t

unfoldable pub push_response : List ℕ → FakeTcti → FakeTcti
push_response bytes t = push (response_bytes bytes) t

unfoldable pub push_response_factory : (List ℕ → List ℕ) → FakeTcti → FakeTcti
push_response_factory factory t = push (response_factory factory) t

unfoldable pub observe_finalize : FakeTcti → FakeTcti
observe_finalize t = record t { finalizes_observed = (t.finalizes_observed + 1) % 2 ^ 64 }

-- `finalize` with a context that is not null.
unfoldable pub finalize : FakeTcti → FakeTcti
unfolding observe_finalize
finalize t = record (if t.owner then observe_finalize t else t) { owner = false }

-- What a call of `receive` leaves: the return code, the value at the pointer to the size, if it is
-- not null, and the bytes that are written.
pub record Received : Type 0 where
  pub rc : ℕ
  pub size : Option ℕ
  pub bytes : Option (List ℕ)

abbrev pub last_command : List (List ℕ) → List ℕ
last_command [] = []
last_command (c ∷ []) = c
last_command (c ∷ d ∷ cs) = last_command (d ∷ cs)

abbrev zero_size : Option ℕ → Option ℕ
zero_size none = none
zero_size (some n) = some 0

module _ (c : TctiCodes) where
  -- `destination` says that the pointer to the buffer is not null.
  unfoldable pub copy_response : List ℕ → Option ℕ → Bool → Received
  copy_response bytes none destination = record { rc = c.bad_reference; size = none; bytes = none }
  copy_response bytes (some n) destination =
      if not destination
      then record { rc = c.success; size = some (length bytes); bytes = none }
      else if ltb n (length bytes)
      then record { rc = c.insufficient_buffer; size = some (length bytes); bytes = none }
      else record { rc = c.success; size = some (length bytes); bytes = some bytes }

  -- A copy that succeeds into a buffer takes the response off the queue.
  unfoldable pub deliver :
      List ℕ → Option ℕ → Bool → List QueuedResult → FakeTcti → Received × FakeTcti
  unfolding copy_response
  deliver bytes size destination rest t =
      let copied = copy_response bytes size destination in
      (copied, if copied.rc == c.success && destination then record t { queue = rest } else t)

  unfoldable pub receive_next : Option ℕ → Bool → FakeTcti → Received × FakeTcti
  unfolding deliver
  receive_next size destination t = elim t.queue [
    | [] ↦ (record { rc = c.io_error; size = size; bytes = none }, t)
    | q ∷ rest ↦ elim q [
      | response_bytes bytes ↦ deliver bytes size destination rest t
      | response_factory factory ↦
          deliver (factory (last_command t.transmitted_commands)) size destination rest t
      | failure_rc rc ↦
          (record { rc = rc; size = zero_size size; bytes = none }, record t { queue = rest })
      | transmit_failure_rc rc ↦ (record { rc = c.bad_sequence; size = size; bytes = none }, t)
    ]
  ]

  -- With a context that is not null.
  unfoldable pub receive : Option ℕ → Bool → FakeTcti → Received × FakeTcti
  unfolding receive_next
  receive size destination t =
      if not t.owner
      then (record { rc = c.bad_reference; size = size; bytes = none }, t)
      else receive_next size destination t

  abbrev sent : ℕ → Option (List ℕ) → List ℕ
  sent size none = []
  sent size (some command) = take size command

  abbrev pub answer_to : List QueuedResult → FakeTcti → ℕ × FakeTcti
  answer_to [] t = (c.io_error, t)
  answer_to (response_bytes bytes ∷ rest) t = (c.success, t)
  answer_to (response_factory factory ∷ rest) t = (c.success, t)
  answer_to (failure_rc rc ∷ rest) t = (c.success, t)
  answer_to (transmit_failure_rc rc ∷ rest) t = (rc, record t { queue = rest })

  unfoldable pub observe_transmit : ℕ → Option (List ℕ) → FakeTcti → ℕ × FakeTcti
  observe_transmit size command t = answer_to t.queue (record t {
    transmits_observed = (t.transmits_observed + 1) % 2 ^ 64;
    transmitted_commands = t.transmitted_commands ++ (sent size command ∷ []);
  })

  abbrev is_null : Option (List ℕ) → Bool
  is_null none = true
  is_null (some command) = false

  -- With a context that is not null; the command is null or has at least `size` bytes.
  unfoldable pub transmit : ℕ → Option (List ℕ) → FakeTcti → ℕ × FakeTcti
  unfolding observe_transmit
  transmit size command t =
      if not t.owner || (ltb 0 size && is_null command)
      then (c.bad_reference, t)
      else observe_transmit size command t

  -- `context` says that the pointer to the context is not null.
  unfoldable pub cancel : Bool → ℕ
  cancel context = if not context then c.bad_reference else c.success

  unfoldable pub set_locality : Bool → ℕ
  set_locality context = if not context then c.bad_reference else c.success

  -- The return code and the value at the pointer to the number of handles, if it is not null.
  unfoldable pub get_poll_handles : Bool → Option ℕ → ℕ × Option ℕ
  get_poll_handles context none = (c.bad_reference, none)
  get_poll_handles context (some n) =
      if not context then (c.bad_reference, some n) else (c.success, some 0)
