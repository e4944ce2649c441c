-- ===== src/Marshalling/Responses.antt =====
-- What an accepted TPM response guarantees: `to_domain_digests` and `to_domain_read_values`.
use tpmkit.Base.{
  ℕ, ◌+◌, ◌≤◌, ◌≡◌, refl, ap, ◌∙◌, List, [], ◌∷◌, ◌++◌, map, some, arith, take, length,
  length-append, append_assoc, append-nil, All, All-append, length-take_le, Bool, Bool-cases, inl,
  inr,
}
use tpmkit.Outcome.{ok, lift, >>=-eq-ok, lift-eq-ok, ok-injective}
use tpmkit.Domain.Hash.{HashAlgorithm, sha1, sha256, sha384, sha512, unlisted, digest_size}
use tpmkit.Domain.Index.{Index}
use tpmkit.Domain.Values.{DigestValue, Selection, PcrValue}
use tpmkit.Tss.{Tss, TpmtHa, TpmlDigestValues, TpmlDigest, Tpm2b}
use tpmkit.Marshalling.{
  algorithm_from_tpm, digest_from_bytes, digest_from_union, digest_from_ha,
  should_skip_disabled_pcr_algorithm, digests_loop, to_domain_digests, read_values_loop,
  to_domain_read_values,
}
use tpmkit.Marshalling.Digests.{IsDigest, make_digest_value_returns}

module _ (legacy : Bool) (t : Tss) where
  pub digest_from_bytes_ok :
      (a : HashAlgorithm) (bytes : List ℕ) (n : ℕ) (d : DigestValue)
      → digest_from_bytes legacy t a (some bytes) n ≡ ok d
      → (d ≡ record { algorithm = a; digest = take n bytes }) × IsDigest legacy d
  unfolding digest_from_bytes
  digest_from_bytes_ok a bytes n d h =
      let (m, size, rest) = >>=-eq-ok (lift (digest_size legacy a)) _ h in
      make_digest_value_returns legacy a (take n bytes) d (lift-eq-ok _ d (ground arith))

  -- The values of a read pair the selected indices, in order, with digests of the selection's
  -- algorithm.
  read_values_loop_ok :
      (a : HashAlgorithm) (ds : List Tpm2b) (is : List Index) (result vs : List PcrValue)
      → length ds ≡ length is
      → read_values_loop legacy t a ds is result ≡ ok vs
      → (more : List PcrValue) × (vs ≡ result ++ more)
        × (map (λ x. x.index) more ≡ is)
        × (map (λ x. x.digest) more
            ≡ map (λ d. record { algorithm = a; digest = take d.size d.buffer }) ds)
        × All (λ x. IsDigest legacy x.digest) more
  unfolding read_values_loop
  read_values_loop_ok a [] [] result vs e h =
      ([], ground (arith, append-nil result), refl, refl, tt)
  read_values_loop_ok a [] (i ∷ is) result vs e h = absurd (omega arith)
  read_values_loop_ok a (d ∷ ds) [] result vs e h = absurd (omega arith)
  read_values_loop_ok a (d ∷ ds) (i ∷ is) result vs e h =
      let (x, made, rest) = >>=-eq-ok (digest_from_bytes legacy t a (some d.buffer) d.size) _ h in
      let (same, good) = digest_from_bytes_ok a d.buffer d.size x made in
      let value : PcrValue = record { index = i; digest = x } in
      let (more, whole, indices, digests, all) =
        read_values_loop_ok a ds is (result ++ (value ∷ [])) vs (omega arith) rest in
      (
        value ∷ more,
        whole ∙ append_assoc result (value ∷ []) more,
        ap (◌∷◌ i) indices,
        cc (same, digests),
        (good, all),
      )

  -- When `to_domain_read_values` accepts a response whose array has all entries that it counts,
  -- the values carry exactly the selected indices in the selection's order, each with the bytes
  -- of the entry at its place as a digest of the selection's algorithm, and each digest has the
  -- size that the build gives that algorithm.
  pub to_domain_read_values_sound :
      (w : TpmlDigest) (s : Selection) (vs : List PcrValue)
      → length (take w.count w.digests) ≡ w.count
      → to_domain_read_values legacy t w s ≡ ok vs
      → (map (λ x. x.index) vs ≡ s.indices)
        × (map (λ x. x.digest) vs
            ≡ map
                (λ d. record { algorithm = s.algorithm; digest = take d.size d.buffer })
                (take w.count w.digests))
        × All (λ x. IsDigest legacy x.digest) vs
  unfolding to_domain_read_values
  to_domain_read_values_sound w s vs array h =
      let counted : w.count ≡ length s.indices = ground arith in
      let (more, whole, indices, digests, all) =
        read_values_loop_ok s.algorithm (take w.count w.digests) s.indices [] vs (array ∙ counted)
          (ground arith) in
      rw whole (indices, digests, all)

  digest_from_union_ok :
      (a : HashAlgorithm) (u : List ℕ) (d : DigestValue)
      → digest_from_union legacy t a u ≡ ok d
      → IsDigest legacy d
  unfolding digest_from_union
  digest_from_union_ok sha1 u d h = (digest_from_bytes_ok sha1 u _ d h).1
  digest_from_union_ok sha256 u d h = (digest_from_bytes_ok sha256 u _ d h).1
  digest_from_union_ok sha384 u d h = (digest_from_bytes_ok sha384 u _ d h).1
  digest_from_union_ok sha512 u d h = (digest_from_bytes_ok sha512 u _ d h).1
  digest_from_union_ok (unlisted n) u d h = absurd (cc h)

  digest_from_ha_ok :
      (e : TpmtHa) (d : DigestValue) → digest_from_ha legacy t e ≡ ok d → IsDigest legacy d
  unfolding digest_from_ha
  digest_from_ha_ok e d h =
      let (a, _, rest) = >>=-eq-ok (algorithm_from_tpm legacy t e.hash_alg) _ h in
      digest_from_union_ok a e.digest d rest

  digests_loop_ok :
      (es : List TpmtHa) (result ds : List DigestValue)
      → digests_loop legacy t es result ≡ ok ds
      → All (IsDigest legacy) result
      → All (IsDigest legacy) ds × (length ds ≤ length result + length es)
  unfolding digests_loop
  digests_loop_ok [] result ds h good =
      let same : result ≡ ds = ok-injective h in rw (← same) (good, omega arith)
  digests_loop_ok (e ∷ es) result ds h good =
      elim (Bool-cases (should_skip_disabled_pcr_algorithm legacy t e.hash_alg)) [
        | inl skip ↦
            let (all, size) = digests_loop_ok es result ds (rw skip at h) good in (all, omega arith)
        | inr keep ↦
            let (d, made, rest) = >>=-eq-ok (digest_from_ha legacy t e) _ (rw keep at h) in
            let (all, size) = digests_loop_ok es (result ++ (d ∷ [])) ds rest (
              All-append (IsDigest legacy) result (d ∷ []) good (digest_from_ha_ok e d made, tt)) in
            (all, omega (arith, length-append result (d ∷ [])))
      ]

  -- When `to_domain_digests` accepts a response, each digest has the size that the build gives
  -- its algorithm, and there are at most as many as the response counts.
  pub to_domain_digests_sound :
      (w : TpmlDigestValues) (ds : List DigestValue)
      → to_domain_digests legacy t w ≡ ok ds
      → All (IsDigest legacy) ds × (length ds ≤ w.count)
  unfolding to_domain_digests
  to_domain_digests_sound w ds h =
      let (all, size) = digests_loop_ok (take w.count w.digests) [] ds (ground arith) tt in
      (all, omega (arith, length-take_le w.count w.digests))
