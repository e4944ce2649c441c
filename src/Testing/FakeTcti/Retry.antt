-- ===== src/Testing/FakeTcti/Retry.antt =====
-- src/adapters/mock/fake_tcti.cpp: a response that does not fit is kept.
use tpmkit.Base.{
  ℕ, Option, ◌∙◌, ◌<◌, ◌≡◌, ◌≢◌, refl, arith, Bool, true, false, List, ◌∷◌, some, none, length, ltb,
  ◌==◌,
}
use tpmkit.Testing.FakeTcti.{
  TctiCodes, QueuedResult, response_bytes, FakeTcti, copy_response, deliver, receive_next, receive,
}
use tpmkit.Testing.FakeTcti.Exchange.{live}

front_lem :
    (c : TctiCodes) (t : FakeTcti) (bytes : List ℕ) (q : List QueuedResult)
    → t.queue ≡ response_bytes bytes ∷ q
    → (size : Option ℕ) (destination : Bool)
    → receive c size destination (live t) ≡ deliver c bytes size destination q (live t)
unfolding receive receive_next
front_lem c t bytes q front size destination = rw front refl

asked :
    (c : TctiCodes) (n : ℕ) (bytes : List ℕ) (q : List QueuedResult) (t : FakeTcti)
    → deliver c bytes (some n) false q t
      ≡ (record { rc = c.success; size = some (length bytes); bytes = none }, t)
unfolding deliver copy_response
asked c n bytes q t = let fine : (c.success == c.success) ≡ true = ground arith in rw fine refl

too_small :
    (c : TctiCodes) (n : ℕ) (bytes : List ℕ) (q : List QueuedResult) (t : FakeTcti)
    → c.insufficient_buffer ≢ c.success
    → n < length bytes
    → deliver c bytes (some n) true q t
      ≡ (record { rc = c.insufficient_buffer; size = some (length bytes); bytes = none }, t)
unfolding deliver copy_response
too_small c n bytes q t other small =
    let short : ltb n (length bytes) ≡ true = ground arith in
    let refused : (c.insufficient_buffer == c.success) ≡ false = ground (arith, other) in
    rw (short, refused) refl

enough :
    (c : TctiCodes) (bytes : List ℕ) (q : List QueuedResult) (t : FakeTcti)
    → deliver c bytes (some (length bytes)) true q t ≡ (
      record { rc = c.success; size = some (length bytes); bytes = some bytes },
      record t { queue = q },
    )
unfolding deliver copy_response
enough c bytes q t =
    let fits : ltb (length bytes) (length bytes) ≡ false = ground arith in
    let fine : (c.success == c.success) ≡ true = ground arith in rw (fits, fine) refl

-- With a response at the front of the queue, a receive without a buffer, and one into a buffer
-- that is too small, tell the size that is needed and change nothing; a receive into a buffer of
-- that size then gets the response, and takes it off the queue.
pub receive_retry :
    (c : TctiCodes) (t : FakeTcti) (bytes : List ℕ) (q : List QueuedResult) (n : ℕ)
    → t.queue ≡ response_bytes bytes ∷ q
    → c.insufficient_buffer ≢ c.success
    → n < length bytes
    → (receive c (some n) false (live t)
        ≡ (record { rc = c.success; size = some (length bytes); bytes = none }, live t))
      × (receive c (some n) true (live t) ≡ (
        record { rc = c.insufficient_buffer; size = some (length bytes); bytes = none },
        live t,
      ))
      × (receive c (some (length bytes)) true (live t) ≡ (
        record { rc = c.success; size = some (length bytes); bytes = some bytes },
        record (live t) { queue = q },
      ))
receive_retry c t bytes q n front other small = (
  front_lem c t bytes q front (some n) false ∙ asked c n bytes q (live t),
  front_lem c t bytes q front (some n) true ∙ too_small c n bytes q (live t) other small,
  front_lem c t bytes q front (some (length bytes)) true ∙ enough c bytes q (live t),
)
