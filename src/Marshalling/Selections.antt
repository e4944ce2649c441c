-- ===== src/Marshalling/Selections.antt =====
-- `to_tpm_selection` and `to_domain_selection` of pcr_marshalling.cpp.
use tpmkit.Base.{
  ℕ, zero, suc, ◌+◌, ◌*◌, ◌≤◌, ◌<◌, ◌≡◌, ◌≢◌, ◌&&◌, refl, sym, ap, ◌∙◌, Bool, false, List, [],
  arith, get_or, set, replicate, length-replicate, ltb, All,
}
use tpmkit.Outcome.{
  ok, returns, lift, catch_tpmkit_error, >>=-eq-ok, ok-injective, lift-eq-ok, bind_throws_returns,
  catch_tpmkit_error_throws,
}
use tpmkit.Domain.Hash.{HashAlgorithm, digest_size, Handled}
use tpmkit.Domain.Index.{Index}
use tpmkit.Domain.Index.Sets.{
  Ascends, Below, Below-mono, member, picked, picked-Ascends, picked-Below, picked-member,
  member-picked_zero,
}
use tpmkit.Domain.Values.{Selection, make_selection, make_selection_empty}
use tpmkit.Tss.{Tss, IsTss, TpmsPcrSelection, TpmlPcrSelection, zero_selection}
use tpmkit.Marshalling.{
  algorithm_from_tpm, algorithm_to_tpm, selected_indices, read_selection, mark_all,
  to_domain_selection, to_tpm_selection, pcr_select_min_size,
}
use tpmkit.Marshalling.Algorithms.{
  algorithm_from_tpm-algorithm_to_tpm, algorithm_from_tpm-Handled,
  algorithm_to_tpm-algorithm_from_tpm,
}
use tpmkit.Marshalling.Scan.{selects, scan_bytes_lem}
use tpmkit.Marshalling.Marks.{
  IsByte, IsMap, mark_all-IsMap, mark_all-hash, mark_all_covers, selects-mark_all, selects_zero,
}

-- What the constructors of `selection` and `std::set<index>` guarantee.
pub record IsSelection (legacy : Bool) (s : Selection) : Type 0 where
  pub handled : Handled legacy s.algorithm
  pub ascends : Ascends 0 s.indices
  pub in_range : Below 32 s.indices

pub make_selection-Handled :
    (legacy : Bool) (a : HashAlgorithm) (is : List Index)
    → Handled legacy a
    → make_selection legacy a is ≡ returns (record { algorithm = a; indices = is })
unfolding make_selection
make_selection-Handled legacy a is (n, h) = rw (h, catch_tpmkit_error) refl

first-set {ℓ} : {A : Type ℓ} (n : ℕ) (z x : A) → 1 ≤ n → get_or (set (replicate n z) 0 x) 0 z ≡ x
first-set zero z x h = absurd (omega arith)
first-set (suc n) z x h = refl

replicate_bytes : (n : ℕ) → All IsByte (replicate n 0)
replicate_bytes zero = tt
replicate_bytes (suc n) = (omega arith, replicate_bytes n)

module _ (legacy : Bool) (t : Tss) (v : IsTss t) where
  -- A response with one selection is read as the PCRs whose bits are set.
  to_domain_selection_one :
      (w : TpmlPcrSelection) (fallback a : HashAlgorithm)
      → let s = get_or w.pcr_selections 0 (zero_selection t) in
        w.count ≡ 1
        → algorithm_from_tpm legacy t s.hash ≡ ok a
        → s.sizeof_select ≤ 4
        → to_domain_selection legacy t w fallback
          ≡ ok (record {
            algorithm = a;
            indices = picked (selects s.pcr_select) 0 (s.sizeof_select * 8);
          })
  unfolding to_domain_selection
  to_domain_selection_one w fallback a one alg size =
      let s : TpmsPcrSelection = get_or w.pcr_selections 0 (zero_selection t) in
      let fits : ltb t.pcr_select_max s.sizeof_select ≡ false = ground (arith, v.select_size) in
      rw
        (
          one,
          alg,
          fits,
          scan_bytes_lem s.pcr_select s.sizeof_select size,
          make_selection-Handled legacy a (picked (selects s.pcr_select) 0 (s.sizeof_select * 8))
              (algorithm_from_tpm-Handled legacy t v s.hash a alg),
        )
        refl

  -- Sending a selection and reading it back as a response gives the same selection, for every
  -- selection that the constructors can build: a hash algorithm that the build handles, and a
  -- set of PCRs from 0 to 31. The fallback algorithm does not matter.
  pub to_domain_selection-to_tpm_selection :
      (s : Selection) (fallback : HashAlgorithm)
      → IsSelection legacy s
      → to_domain_selection legacy t (to_tpm_selection legacy t s) fallback ≡ ok s
  to_domain_selection-to_tpm_selection s fallback ws =
      let start : TpmsPcrSelection = record (zero_selection t) {
        hash = algorithm_to_tpm legacy t s.algorithm;
        sizeof_select = pcr_select_min_size;
      } in
      let sent : TpmsPcrSelection = mark_all start s.indices in
      let map_start : IsMap start = record {
        four = length-replicate t.pcr_select_max 0 ∙ v.select_size;
        bytes = replicate_bytes t.pcr_select_max;
        size_le = omega arith;
      } in
      let map_sent : IsMap sent = mark_all-IsMap start s.indices ws.in_range map_start in
      let first : get_or (to_tpm_selection legacy t s).pcr_selections 0 (zero_selection t) ≡ sent =
        unfold to_tpm_selection in
        first-set t.pcr_selections_size (zero_selection t) sent
          (omega (arith, v.some_bank, v.banks_in_selections)) in
      let alg : algorithm_from_tpm legacy t sent.hash ≡ ok s.algorithm =
        ap (algorithm_from_tpm legacy t) (mark_all-hash start s.indices)
        ∙ algorithm_from_tpm-algorithm_to_tpm legacy t v s.algorithm ws.handled.0 ws.handled.1 in
      let found : picked (selects sent.pcr_select) 0 (sent.sizeof_select * 8) ≡ s.indices =
        picked-member (selects sent.pcr_select) 0 (sent.sizeof_select * 8) s.indices
          (λ k h l.
            selects-mark_all start s.indices k ws.in_range map_start
            ∙ rw (selects_zero t.pcr_select_max k) refl)
          ws.ascends
          (Below-mono (sent.sizeof_select * 8) (0 + sent.sizeof_select * 8) s.indices (omega arith)
            (mark_all_covers start s.indices ws.in_range)) in
      to_domain_selection_one (to_tpm_selection legacy t s) fallback s.algorithm
        (unfold to_tpm_selection in refl) (rw first alg) (rw first map_sent.size_le)
      ∙ rw (first, found) refl

  make_selection_ok :
      (a : HashAlgorithm) (is : List Index) (s : Selection)
      → lift (make_selection legacy a is) ≡ ok s
      → Handled legacy a × (s ≡ record { algorithm = a; indices = is })
  unfolding make_selection
  make_selection_ok a is s h =
      let (n, caught, built) = bind_throws_returns _ _ s (lift-eq-ok _ s h) in
      let size : digest_size legacy a ≡ returns n = catch_tpmkit_error_throws _ _ n caught in
      ((n, size), cc)

  -- A response that counts no selection is read as the empty selection of the fallback algorithm.
  to_domain_selection_none :
      (w : TpmlPcrSelection) (fallback : HashAlgorithm)
      → w.count ≡ 0
      → Handled legacy fallback
      → to_domain_selection legacy t w fallback ≡ ok (record { algorithm = fallback; indices = [] })
  unfolding to_domain_selection make_selection_empty
  to_domain_selection_none w fallback none f =
      rw (none, make_selection-Handled legacy fallback [] f) refl

  read_selection_ok :
      (w : TpmsPcrSelection) (s : Selection)
      → read_selection legacy t w ≡ ok s
      → (algorithm_from_tpm legacy t w.hash ≡ ok s.algorithm) × (w.sizeof_select ≤ 4)
  unfolding read_selection
  read_selection_ok w s h =
      let (a, alg, rest) = >>=-eq-ok _ _ h in
      let (is, scanned, built) =
        >>=-eq-ok (selected_indices legacy t w) (λ js. lift (make_selection legacy a js)) rest in
      let (_, made) = make_selection_ok a is s built in
      (alg ∙ ap ok (sym (ap (λ x. x.algorithm) made)), ground (arith, v.select_size))

  to_domain_selection_ok :
      (w : TpmlPcrSelection) (fallback : HashAlgorithm) (s : Selection)
      → to_domain_selection legacy t w fallback ≡ ok s
      → w.count ≢ 0
      → (w.count ≡ 1)
        × (read_selection legacy t (get_or w.pcr_selections 0 (zero_selection t)) ≡ ok s)
  unfolding to_domain_selection
  to_domain_selection_ok w fallback s h some = (ground arith, ground arith)

  -- When a response that counts at least one selection is accepted, it counts exactly one, with
  -- the TPM identifier of the result's algorithm, which the build handles; the result's indices
  -- ascend, lie in 0-31, and are exactly the PCRs whose bits are set in the bytes that the
  -- selection's size covers.
  pub to_domain_selection_sound :
      (w : TpmlPcrSelection) (fallback : HashAlgorithm) (s : Selection) (k : ℕ)
      → to_domain_selection legacy t w fallback ≡ ok s
      → w.count ≢ 0
      → k < 32
      → let sent = get_or w.pcr_selections 0 (zero_selection t) in
        (w.count ≡ 1)
        × (algorithm_to_tpm legacy t s.algorithm ≡ sent.hash)
        × IsSelection legacy s
        × (member k s.indices ≡ (ltb k (sent.sizeof_select * 8) && selects sent.pcr_select k))
  to_domain_selection_sound w fallback s k h some l =
      let sent : TpmsPcrSelection = get_or w.pcr_selections 0 (zero_selection t) in
      let (one, read) = to_domain_selection_ok w fallback s h some in
      let (alg, size) = read_selection_ok sent s read in
      let same : s ≡ record {
        algorithm = s.algorithm;
        indices = picked (selects sent.pcr_select) 0 (sent.sizeof_select * 8);
      } =
        ok-injective (sym h ∙ to_domain_selection_one w fallback s.algorithm one alg size) in
      let indices : s.indices ≡ picked (selects sent.pcr_select) 0 (sent.sizeof_select * 8) =
        ap (λ x. x.indices) same in
      (
        one,
        (algorithm_to_tpm-algorithm_from_tpm legacy t v sent.hash s.algorithm alg).0,
        record {
          handled = algorithm_from_tpm-Handled legacy t v sent.hash s.algorithm alg;
          ascends = rw indices (picked-Ascends (selects sent.pcr_select) 0 _);
          in_range = rw indices (picked-Below (selects sent.pcr_select) 0 _ 32 (omega arith));
        },
        ap (member k) indices
            ∙ member-picked_zero (selects sent.pcr_select) (sent.sizeof_select * 8) k,
      )
