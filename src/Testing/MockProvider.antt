-- ===== src/Testing/MockProvider.antt =====
-- include/tpmkit/testing/mock_pcr_provider.h and src/adapters/mock/mock_pcr_provider.cpp: a provider
-- that counts its calls and answers with stored results.
use tpmkit.Base.{
  ℕ, ◌+◌, ◌%◌, ◌^◌, ◌<◌, ◌≡◌, refl, ap, ◌∙◌, arith, Bool, true, false, List, [], ◌∷◌, map,
  if◌then◌else◌,
}
use tpmkit.Outcome.{Outcome, Done, fails, backend_error}
use tpmkit.Domain.Values.{AllocateResult, EventResult, ReadResult}
use tpmkit.Provider.Port.{Request}

abbrev make_default_failure : {A : Type 0} → Outcome A
make_default_failure = fails backend_error "mock PCR provider response was not programmed"

pub record MockProvider : Type 0 where
  pub allocate_call_count : ℕ
  pub allocate_result : Outcome AllocateResult
  pub event_call_count : ℕ
  pub event_result : Outcome EventResult
  pub extend_call_count : ℕ
  pub extend_result : Done
  pub read_call_count : ℕ
  pub read_result : Outcome ReadResult
  pub reset_call_count : ℕ
  pub reset_result : Done
  pub set_auth_policy_call_count : ℕ
  pub auth_policy_result : Done
  pub set_auth_value_call_count : ℕ
  pub auth_value_result : Done

abbrev pub new_mock : MockProvider
new_mock = record {
  allocate_call_count = 0;
  allocate_result = make_default_failure;
  event_call_count = 0;
  event_result = make_default_failure;
  extend_call_count = 0;
  extend_result = make_default_failure;
  read_call_count = 0;
  read_result = make_default_failure;
  reset_call_count = 0;
  reset_result = make_default_failure;
  set_auth_policy_call_count = 0;
  auth_policy_result = make_default_failure;
  set_auth_value_call_count = 0;
  auth_value_result = make_default_failure;
}

-- An answer of one of the seven operations.
pub data Answer : Type 0 where
  of_allocate : Outcome AllocateResult → Answer
  of_event : Outcome EventResult → Answer
  of_read : Outcome ReadResult → Answer
  of_done : Done → Answer

-- `++count` of a `std::size_t`.
abbrev pub one_more : ℕ → ℕ
one_more n = (n + 1) % 2 ^ 64

-- The seven operations; their arguments are not used.
unfoldable pub mock_allocate : MockProvider → Outcome AllocateResult × MockProvider
mock_allocate m =
    (m.allocate_result, record m { allocate_call_count = one_more m.allocate_call_count })

unfoldable pub mock_event : MockProvider → Outcome EventResult × MockProvider
mock_event m = (m.event_result, record m { event_call_count = one_more m.event_call_count })

unfoldable pub mock_extend : MockProvider → Done × MockProvider
mock_extend m = (m.extend_result, record m { extend_call_count = one_more m.extend_call_count })

unfoldable pub mock_read : MockProvider → Outcome ReadResult × MockProvider
mock_read m = (m.read_result, record m { read_call_count = one_more m.read_call_count })

unfoldable pub mock_reset : MockProvider → Done × MockProvider
mock_reset m = (m.reset_result, record m { reset_call_count = one_more m.reset_call_count })

unfoldable pub mock_set_auth_policy : MockProvider → Done × MockProvider
mock_set_auth_policy m = (
  m.auth_policy_result,
  record m { set_auth_policy_call_count = one_more m.set_auth_policy_call_count },
)

unfoldable pub mock_set_auth_value : MockProvider → Done × MockProvider
mock_set_auth_value m = (
  m.auth_value_result,
  record m { set_auth_value_call_count = one_more m.set_auth_value_call_count },
)

abbrev answer_as : {A : Type 0} → (A → Answer) → A × MockProvider → Answer × MockProvider
answer_as f (result, m) = (f result, m)

unfoldable pub mock_perform : Request → MockProvider → Answer × MockProvider
unfolding mock_allocate mock_event mock_extend mock_read mock_reset mock_set_auth_policy
    mock_set_auth_value
mock_perform (Request.allocate banks) m = answer_as of_allocate (mock_allocate m)
mock_perform (Request.event i event_data) m = answer_as of_event (mock_event m)
mock_perform (Request.extend i digests) m = answer_as of_done (mock_extend m)
mock_perform (Request.read s) m = answer_as of_read (mock_read m)
mock_perform (Request.reset i) m = answer_as of_done (mock_reset m)
mock_perform (Request.set_auth_policy i a digest) m = answer_as of_done (mock_set_auth_policy m)
mock_perform (Request.set_auth_value i auth) m = answer_as of_done (mock_set_auth_value m)

unfoldable pub clear_call_counts : MockProvider → MockProvider
clear_call_counts m = record m {
  allocate_call_count = 0;
  event_call_count = 0;
  extend_call_count = 0;
  read_call_count = 0;
  reset_call_count = 0;
  set_auth_policy_call_count = 0;
  set_auth_value_call_count = 0;
}

-- The functions that store a result.
unfoldable pub set_allocate_result : Outcome AllocateResult → MockProvider → MockProvider
set_allocate_result result m = record m { allocate_result = result }

unfoldable pub set_event_result : Outcome EventResult → MockProvider → MockProvider
set_event_result result m = record m { event_result = result }

unfoldable pub set_extend_result : Done → MockProvider → MockProvider
set_extend_result result m = record m { extend_result = result }

unfoldable pub set_read_result : Outcome ReadResult → MockProvider → MockProvider
set_read_result result m = record m { read_result = result }

unfoldable pub set_reset_result : Done → MockProvider → MockProvider
set_reset_result result m = record m { reset_result = result }

unfoldable pub set_auth_policy_result : Done → MockProvider → MockProvider
set_auth_policy_result result m = record m { auth_policy_result = result }

unfoldable pub set_auth_value_result : Done → MockProvider → MockProvider
set_auth_value_result result m = record m { auth_value_result = result }

-- The operations by their names.
pub data Operation : Type 0 where
  allocates events extends reads resets sets_auth_policy sets_auth_value : Operation

abbrev pub count_of : Operation → MockProvider → ℕ
count_of allocates m = m.allocate_call_count
count_of events m = m.event_call_count
count_of extends m = m.extend_call_count
count_of reads m = m.read_call_count
count_of resets m = m.reset_call_count
count_of sets_auth_policy m = m.set_auth_policy_call_count
count_of sets_auth_value m = m.set_auth_value_call_count

abbrev pub is_call : Operation → Request → Bool
is_call allocates (Request.allocate banks) = true
is_call events (Request.event i d) = true
is_call extends (Request.extend i ds) = true
is_call reads (Request.read s) = true
is_call resets (Request.reset i) = true
is_call sets_auth_policy (Request.set_auth_policy i a d) = true
is_call sets_auth_value (Request.set_auth_value i auth) = true
is_call op r = false

-- How many of the requests are calls of an operation.
abbrev pub calls_of : Operation → List Request → ℕ
calls_of op [] = 0
calls_of op (r ∷ rs) = (if is_call op r then 1 else 0) + calls_of op rs

abbrev pub mock_performs : List Request → MockProvider → List Answer × MockProvider
mock_performs [] m = ([], m)
mock_performs (r ∷ rs) m =
    let (answer, m') = mock_perform r m in
    let (answers, m'') = mock_performs rs m' in (answer ∷ answers, m'')

-- What a request is answered with as the results are stored.
abbrev pub stored : MockProvider → Request → Answer
stored m r = (mock_perform r m).0

counted :
    (op : Operation) (r : Request) (m : MockProvider)
    → count_of op (mock_perform r m).1
      ≡ (if is_call op r then one_more (count_of op m) else count_of op m)
unfolding mock_perform
counted op r m = ground arith

stored_unchanged :
    (r r' : Request) (m : MockProvider) → stored (mock_perform r m).1 r' ≡ stored m r'
unfolding mock_perform
stored_unchanged r r' m = ground arith

same_answers :
    (m m' : MockProvider)
    → ((r : Request) → stored m' r ≡ stored m r)
    → (rs : List Request) → map (stored m') rs ≡ map (stored m) rs
same_answers m m' same [] = refl
same_answers m m' same (r ∷ rs) = cc (same r, same_answers m m' same rs)

answers_lem : (rs : List Request) (m : MockProvider) → (mock_performs rs m).0 ≡ map (stored m) rs
answers_lem [] m = refl
answers_lem (r ∷ rs) m =
    ap (λ l. stored m r ∷ l)
      (answers_lem rs (mock_perform r m).1
        ∙ same_answers m (mock_perform r m).1 (λ r'. stored_unchanged r r' m) rs)

-- A count without overflow.
one_step :
    (called : Bool) (n next rest : ℕ)
    → next ≡ (if called then one_more n else n)
    → n + ((if called then 1 else 0) + rest) < 2 ^ 64
    → next + rest ≡ n + ((if called then 1 else 0) + rest)
one_step true n next rest e small = omega arith
one_step false n next rest e small = omega arith

counts_lem :
    (op : Operation) (rs : List Request) (m : MockProvider)
    → count_of op m + calls_of op rs < 2 ^ 64
    → count_of op (mock_performs rs m).1 ≡ count_of op m + calls_of op rs
counts_lem op [] m small = omega arith
counts_lem op (r ∷ rs) m small =
    let m' = (mock_perform r m).1 in
    let next =
      one_step (is_call op r) (count_of op m) (count_of op m') (calls_of op rs) (counted op r m)
        small in
    let bound : count_of op m' + calls_of op rs < 2 ^ 64 = rw next small in
    counts_lem op rs m' bound ∙ next

-- However the operations are called, each call is answered with the result that is stored for its
-- operation, and the count of an operation grows by the number of its calls, as long as it stays
-- below 2^64.
pub mock_performs_lem :
    (op : Operation) (rs : List Request) (m : MockProvider)
    → count_of op m + calls_of op rs < 2 ^ 64
    → ((mock_performs rs m).0 ≡ map (stored m) rs)
      × (count_of op (mock_performs rs m).1 ≡ count_of op m + calls_of op rs)
mock_performs_lem op rs m small = (answers_lem rs m, counts_lem op rs m small)
