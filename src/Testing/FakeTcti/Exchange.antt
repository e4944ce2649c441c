-- ===== src/Testing/FakeTcti/Exchange.antt =====
-- src/adapters/mock/fake_tcti.cpp: exchanges of a command and a response.
use tpmkit.Base.{
  ℕ, zero, suc, ◌+◌, ◌%◌, ◌^◌, ◌≤◌, ◌≡◌, ◌≢◌, refl, ap, sym, ◌∙◌, arith, Bool, true, false, List,
  [], ◌∷◌, ◌++◌, append_assoc, append-nil, take-append_self, ◌&&◌, none, some, length, take, ltb,
  ◌==◌, if◌then◌else◌,
}
use tpmkit.Testing.FakeTcti.{
  TctiCodes, QueuedResult, response_bytes, response_factory, failure_rc, transmit_failure_rc,
  FakeTcti, Received, last_command, copy_response, deliver, receive_next, receive, observe_transmit,
  transmit, answer_to,
}

pub data Reply : Type 0 where
  answered : List ℕ → Reply
  transmit_failed receive_failed : ℕ → Reply

-- What a script of results comes to, command by command.
abbrev pub expected : TctiCodes → List QueuedResult → List (List ℕ) → List Reply
expected c q [] = []
expected c [] (cmd ∷ cmds) = transmit_failed c.io_error ∷ expected c [] cmds
expected c (response_bytes bytes ∷ q) (cmd ∷ cmds) = answered bytes ∷ expected c q cmds
expected c (response_factory factory ∷ q) (cmd ∷ cmds) = answered (factory cmd) ∷ expected c q cmds
expected c (failure_rc rc ∷ q) (cmd ∷ cmds) = receive_failed rc ∷ expected c q cmds
expected c (transmit_failure_rc rc ∷ q) (cmd ∷ cmds) = transmit_failed rc ∷ expected c q cmds

abbrev pub drop : ℕ → List QueuedResult → List QueuedResult
drop zero q = q
drop (suc n) [] = []
drop (suc n) (x ∷ q) = drop n q

-- The responses fit a buffer of the size, and the failures are none.
abbrev pub Playable : TctiCodes → ℕ → List QueuedResult → Type 0
Playable c cap [] = Unit
Playable c cap (response_bytes bytes ∷ q) = (length bytes ≤ cap) × Playable c cap q
Playable c cap (response_factory factory ∷ q) =
    ((cmd : List ℕ) → length (factory cmd) ≤ cap) × Playable c cap q
Playable c cap (failure_rc rc ∷ q) = (rc ≢ c.success) × Playable c cap q
Playable c cap (transmit_failure_rc rc ∷ q) = (rc ≢ c.success) × Playable c cap q

-- A TCTI that is not finalized.
abbrev pub live : FakeTcti → FakeTcti
live t = record t { owner = true }

module _ (c : TctiCodes) (cap : ℕ) where
  abbrev reply_of : Received → Reply
  reply_of r = elim r.bytes [ none ↦ receive_failed r.rc | some bytes ↦ answered bytes ]

  abbrev and_receive : ℕ × FakeTcti → Reply × FakeTcti
  and_receive (rc, t) =
      if rc == c.success
      then (reply_of (receive c (some cap) true t).0, (receive c (some cap) true t).1)
      else (transmit_failed rc, t)

  -- A client that sends a command and, unless that fails, receives into a buffer of `cap` bytes.
  abbrev pub exchange : List ℕ → FakeTcti → Reply × FakeTcti
  exchange cmd t = and_receive (transmit c (length cmd) (some cmd) t)

  abbrev pub exchanges : List (List ℕ) → FakeTcti → List Reply × FakeTcti
  exchanges [] t = ([], t)
  exchanges (cmd ∷ cmds) t =
      let (reply, t') = exchange cmd t in
      let (replies, t'') = exchanges cmds t' in (reply ∷ replies, t'')

  abbrev after : FakeTcti → List ℕ → List QueuedResult → FakeTcti
  after t cmd q = record t {
    queue = q;
    owner = true;
    transmits_observed = (t.transmits_observed + 1) % 2 ^ 64;
    transmitted_commands = t.transmitted_commands ++ (cmd ∷ []);
  }

  self_lem : (n : ℕ) → (n == n) ≡ true
  self_lem n = ground arith

  take_all : (xs : List ℕ) → take (length xs) xs ≡ xs
  take_all xs = ap (take (length xs)) (sym (append-nil xs)) ∙ take-append_self xs []

  transmit_lem :
      (t : FakeTcti) (cmd : List ℕ)
      → transmit c (length cmd) (some cmd) (live t) ≡ answer_to c t.queue (after t cmd t.queue)
  unfolding transmit observe_transmit
  transmit_lem t cmd = rw (and_false (ltb 0 (length cmd)), take_all cmd) refl
    where
      and_false : (b : Bool) → b && false ≡ false
      and_false true = refl
      and_false false = refl

  deliver_lem :
      (bytes : List ℕ) (rest : List QueuedResult) (t : FakeTcti)
      → length bytes ≤ cap
      → deliver c bytes (some cap) true rest t ≡ (
        record { rc = c.success; size = some (length bytes); bytes = some bytes },
        record t { queue = rest },
      )
  unfolding deliver copy_response
  deliver_lem bytes rest t fits =
      let fine : ltb cap (length bytes) ≡ false = ground arith in rw (fine, self_lem c.success) refl

  last_command-append :
      (sent : List (List ℕ)) (cmd : List ℕ) → last_command (sent ++ (cmd ∷ [])) ≡ cmd
  last_command-append [] cmd = refl
  last_command-append (a ∷ []) cmd = refl
  last_command-append (a ∷ b ∷ sent) cmd = last_command-append (b ∷ sent) cmd

  received_lem :
      (t : FakeTcti) (r : Received) (t' : FakeTcti)
      → receive c (some cap) true t ≡ (r, t')
      → and_receive (c.success, t) ≡ (reply_of r, t')
  received_lem t r t' e = rw (self_lem c.success, e) refl

  refused_lem :
      (rc : ℕ) (t : FakeTcti) → rc ≢ c.success → and_receive (rc, t) ≡ (transmit_failed rc, t)
  refused_lem rc t other = let no : (rc == c.success) ≡ false = ground (arith, other) in rw no refl

  transmitted_lem :
      (t : FakeTcti) (cmd : List ℕ) (q : List QueuedResult)
      → t.queue ≡ q
      → transmit c (length cmd) (some cmd) (live t) ≡ answer_to c q (after t cmd q)
  transmitted_lem t cmd q front =
      transmit_lem t cmd ∙ ap (λ q'. answer_to c q' (after t cmd q')) front

  -- What comes first, and the state after it.
  abbrev pub first_reply : List QueuedResult → List ℕ → Reply
  first_reply [] cmd = transmit_failed c.io_error
  first_reply (response_bytes bytes ∷ q) cmd = answered bytes
  first_reply (response_factory factory ∷ q) cmd = answered (factory cmd)
  first_reply (failure_rc rc ∷ q) cmd = receive_failed rc
  first_reply (transmit_failure_rc rc ∷ q) cmd = transmit_failed rc

  exchange_lem :
      (t : FakeTcti) (cmd : List ℕ) (q : List QueuedResult)
      → t.queue ≡ q
      → c.io_error ≢ c.success
      → Playable c cap q
      → exchange cmd (live t) ≡ (first_reply q cmd, after t cmd (drop 1 q))
  unfolding receive receive_next
  exchange_lem t cmd [] front io p =
      ap and_receive (transmitted_lem t cmd [] front) ∙ refused_lem c.io_error (after t cmd []) io
  exchange_lem t cmd (response_bytes bytes ∷ q) front io (fits, p) =
      ap and_receive (transmitted_lem t cmd _ front)
      ∙ received_lem (after t cmd (response_bytes bytes ∷ q)) _ (after t cmd q)
          (deliver_lem bytes q (after t cmd (response_bytes bytes ∷ q)) fits)
  exchange_lem t cmd (response_factory factory ∷ q) front io (fits, p) =
      ap and_receive (transmitted_lem t cmd _ front)
      ∙ received_lem (after t cmd (response_factory factory ∷ q)) _ (after t cmd q) (
          ap
            (λ last.
              deliver c (factory last) (some cap) true q
                (after t cmd (response_factory factory ∷ q)))
            (last_command-append t.transmitted_commands cmd)
          ∙ deliver_lem (factory cmd) q (after t cmd (response_factory factory ∷ q)) (fits cmd))
  exchange_lem t cmd (failure_rc rc ∷ q) front io (other, p) =
      ap and_receive (transmitted_lem t cmd _ front)
      ∙ received_lem (after t cmd (failure_rc rc ∷ q)) _ (after t cmd q) refl
  exchange_lem t cmd (transmit_failure_rc rc ∷ q) front io (other, p) =
      ap and_receive (transmitted_lem t cmd _ front) ∙ refused_lem rc (after t cmd q) other

  expected_first :
      (q : List QueuedResult) (cmd : List ℕ) (cmds : List (List ℕ))
      → expected c q (cmd ∷ cmds) ≡ first_reply q cmd ∷ expected c (drop 1 q) cmds
  expected_first [] cmd cmds = refl
  expected_first (response_bytes bytes ∷ q) cmd cmds = refl
  expected_first (response_factory factory ∷ q) cmd cmds = refl
  expected_first (failure_rc rc ∷ q) cmd cmds = refl
  expected_first (transmit_failure_rc rc ∷ q) cmd cmds = refl

  Playable-drop : (q : List QueuedResult) → Playable c cap q → Playable c cap (drop 1 q)
  Playable-drop [] p = tt
  Playable-drop (response_bytes bytes ∷ q) (h, p) = p
  Playable-drop (response_factory factory ∷ q) (h, p) = p
  Playable-drop (failure_rc rc ∷ q) (h, p) = p
  Playable-drop (transmit_failure_rc rc ∷ q) (h, p) = p

  drop_one : (n : ℕ) (q : List QueuedResult) → drop n (drop 1 q) ≡ drop (suc n) q
  drop_one zero [] = refl
  drop_one (suc n) [] = refl
  drop_one n (x ∷ q) = refl

  -- A TCTI that is not finalized plays its queue in order: a client that sends commands and, after
  -- each that is not refused, receives into a buffer that is large enough gets, command by
  -- command, what the script of the queue says, a factory's answer being that to the command just
  -- sent; an empty queue is an I/O error. All commands are recorded in order, and as many results
  -- are taken off the queue as commands were sent, or all. Condition: no failure in the queue is the
  -- code of success, nor is the I/O error.
  pub exchanges_lem :
      (t : FakeTcti) (cmds : List (List ℕ))
      → c.io_error ≢ c.success
      → Playable c cap t.queue
      → ((exchanges cmds (live t)).0 ≡ expected c t.queue cmds)
        × ((exchanges cmds (live t)).1.queue ≡ drop (length cmds) t.queue)
        × ((exchanges cmds (live t)).1.transmitted_commands ≡ t.transmitted_commands ++ cmds)
  exchanges_lem t [] io p = (refl, refl, sym (append-nil t.transmitted_commands))
  exchanges_lem t (cmd ∷ cmds) io p =
      let first = exchange_lem t cmd t.queue refl io p in
      let (replies, queue, sent) =
        exchanges_lem (after t cmd (drop 1 t.queue)) cmds io (Playable-drop t.queue p) in
      rw (first) (
        ap (λ l. first_reply t.queue cmd ∷ l) replies ∙ sym (expected_first t.queue cmd cmds),
        queue ∙ drop_one (length cmds) t.queue,
        sent ∙ append_assoc t.transmitted_commands (cmd ∷ []) cmds,
      )
