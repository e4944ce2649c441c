-- ===== src/Marshalling/Digests.antt =====
-- The digest lists of pcr_marshalling.cpp, in both directions, and the values of a read.
use tpmkit.Base.{
  ℕ, zero, suc, ◌+◌, ◌-◌, ◌%◌, ◌^◌, ◌≤◌, ◌<◌, ◌≡◌, refl, sym, ap, ◌∙◌, Bool, false, List, [], ◌∷◌,
  ◌++◌, map, some, arith, get_or, set, take, replicate, length, length-append, take-append_self,
  append_assoc, append-nil, ltb, All,
}
use tpmkit.Outcome.{ok, returns, catch_tpmkit_error, bind_throws_returns, catch_tpmkit_error_throws}
use tpmkit.Domain.Hash.{HashAlgorithm, sha1, sha256, sha384, sha512, unlisted, digest_size}
use tpmkit.Domain.Values.{DigestValue, make_digest_value}
use tpmkit.Tss.{Tss, IsTss, TpmtHa, zero_ha}
use tpmkit.Marshalling.{
  algorithm_to_tpm, digest_from_bytes, digest_from_union, digest_from_ha,
  should_skip_disabled_pcr_algorithm, digests_loop, to_domain_digests, fill, set_digest_bytes,
  to_tpm_digest_values, overwrite,
}
use tpmkit.Marshalling.Algorithms.{algorithm_from_tpm-algorithm_to_tpm}

-- Filling the entries of an array from its front.
module _ {ℓ κ} {A : Type ℓ} {B : Type κ} (f : A → B → B) (z : B) where
  set-append :
      (front rest : List B) (x y : B)
      → set (front ++ (x ∷ rest)) (length front) y ≡ front ++ (y ∷ rest)
  set-append [] rest x y = refl
  set-append (w ∷ front) rest x y = ap (◌∷◌ w) (set-append front rest x y)

  get_or-append : (front rest : List B) (x : B) → get_or (front ++ (x ∷ rest)) (length front) z ≡ x
  get_or-append [] rest x = refl
  get_or-append (w ∷ front) rest x = get_or-append front rest x

  pub fill-replicate :
      (index n : ℕ) (xs : List A) (front : List B)
      → length front ≡ index
      → length xs ≤ n
      → fill f z index xs (front ++ replicate n z)
        ≡ front ++ (map (λ x. f x z) xs ++ replicate (n - length xs) z)
  fill-replicate index n [] front e h = let all : n - 0 ≡ n = omega arith in rw all refl
  fill-replicate index zero (x ∷ xs) front e h = absurd (omega arith)
  fill-replicate index (suc n) (x ∷ xs) front e h =
      let rest : suc n - suc (length xs) ≡ n - length xs = omega arith in
      rw
        (
          ← e,
          get_or-append front (replicate n z) z,
          set-append front (replicate n z) z (f x z),
          rest,
        )
        (ap (fill f z (length front + 1) xs) (sym (append_assoc front (f x z ∷ []) (replicate n z)))
          ∙ fill-replicate (length front + 1) n xs (front ++ (f x z ∷ []))
              (omega (arith, length-append front (f x z ∷ []))) (omega arith)
          ∙ append_assoc front (f x z ∷ []) _)

take-map-append {ℓ κ} :
    {A : Type ℓ} {B : Type κ} (f : A → B) (xs : List A) (ys : List B)
    → take (length xs) (map f xs ++ ys) ≡ map f xs
take-map-append f [] ys = refl
take-map-append f (x ∷ xs) ys = ap (◌∷◌ (f x)) (take-map-append f xs ys)

-- What the constructor of `digest_value` guarantees.
abbrev pub IsDigest : Bool → DigestValue → Type 0
IsDigest legacy d = digest_size legacy d.algorithm ≡ returns (length d.digest)

pub make_digest_value-IsDigest :
    (legacy : Bool) (d : DigestValue)
    → IsDigest legacy d
    → make_digest_value legacy d.algorithm d.digest ≡ returns d
unfolding make_digest_value
make_digest_value-IsDigest legacy d h = rw (h, catch_tpmkit_error) (ground arith)

pub make_digest_value_returns :
    (legacy : Bool) (a : HashAlgorithm) (bytes : List ℕ) (d : DigestValue)
    → make_digest_value legacy a bytes ≡ returns d
    → (d ≡ record { algorithm = a; digest = bytes }) × IsDigest legacy d
unfolding make_digest_value
make_digest_value_returns legacy a bytes d h =
    let (n, caught, built) = bind_throws_returns _ _ d h in
    let size : digest_size legacy a ≡ returns n = catch_tpmkit_error_throws _ _ n caught in
    let same : d ≡ record { algorithm = a; digest = bytes } = ground arith in
    let exact : n ≡ length bytes = ground arith in (same, rw (same, ← exact) size)

module _ (legacy : Bool) (t : Tss) (v : IsTss t) where
  digest_from_bytes-IsDigest :
      (a : HashAlgorithm) (n : ℕ) (bytes rest : List ℕ)
      → n ≡ length bytes
      → digest_size legacy a ≡ returns (length bytes)
      → digest_from_bytes legacy t a (some (bytes ++ rest)) n
        ≡ ok (record { algorithm = a; digest = bytes })
  unfolding digest_from_bytes
  digest_from_bytes-IsDigest a n bytes rest e h =
      rw
        (
          h,
          e,
          take-append_self bytes rest,
          make_digest_value-IsDigest legacy (record { algorithm = a; digest = bytes }) h,
        )
        (ground arith)

  digest_from_union-IsDigest :
      (a : HashAlgorithm) (bytes rest : List ℕ)
      → digest_size legacy a ≡ returns (length bytes)
      → digest_from_union legacy t a (bytes ++ rest) ≡ ok (record { algorithm = a; digest = bytes })
  unfolding digest_from_union
  digest_from_union-IsDigest sha1 bytes rest h =
      digest_from_bytes-IsDigest sha1 t.sha1_digest_size bytes rest
        (unfold digest_size in ground (arith, v.sha1_size)) h
  digest_from_union-IsDigest sha256 bytes rest h =
      digest_from_bytes-IsDigest sha256 t.sha256_digest_size bytes rest
        (unfold digest_size in ground (arith, v.sha256_size)) h
  digest_from_union-IsDigest sha384 bytes rest h =
      digest_from_bytes-IsDigest sha384 t.sha384_digest_size bytes rest
        (unfold digest_size in ground (arith, v.sha384_size)) h
  digest_from_union-IsDigest sha512 bytes rest h =
      digest_from_bytes-IsDigest sha512 t.sha512_digest_size bytes rest
        (unfold digest_size in ground (arith, v.sha512_size)) h
  digest_from_union-IsDigest (unlisted n) bytes rest h = absurd (unfold digest_size in cc)

  -- The entry that `to_tpm_digest_values` writes for a digest.
  abbrev encode : DigestValue → TpmtHa
  encode d = set_digest_bytes legacy t d.algorithm d.digest (zero_ha t)

  set_digest_bytes_handled :
      (a : HashAlgorithm) (n : ℕ) (bytes : List ℕ) (e : TpmtHa)
      → digest_size legacy a ≡ returns n
      → set_digest_bytes legacy t a bytes e
        ≡ record { hash_alg = algorithm_to_tpm legacy t a; digest = overwrite bytes e.digest }
  unfolding set_digest_bytes
  set_digest_bytes_handled sha1 n bytes e h = refl
  set_digest_bytes_handled sha256 n bytes e h = refl
  set_digest_bytes_handled sha384 n bytes e h = refl
  set_digest_bytes_handled sha512 n bytes e h = refl
  set_digest_bytes_handled (unlisted k) n bytes e h = absurd (unfold digest_size in cc)

  -- An entry of a handled algorithm is not skipped.
  not_skipped :
      (a : HashAlgorithm) (n : ℕ)
      → digest_size legacy a ≡ returns n
      → should_skip_disabled_pcr_algorithm legacy t (algorithm_to_tpm legacy t a) ≡ false
  unfolding should_skip_disabled_pcr_algorithm algorithm_to_tpm digest_size
  not_skipped a n h = ground arith

  digests_loop-encode :
      (ds result : List DigestValue)
      → All (IsDigest legacy) ds
      → digests_loop legacy t (map encode ds) result ≡ ok (result ++ ds)
  unfolding digests_loop digest_from_ha
  digests_loop-encode [] result h = ap ok (sym (append-nil result))
  digests_loop-encode (d ∷ ds) result (h, hs) =
      rw
        (
          set_digest_bytes_handled d.algorithm (length d.digest) d.digest (zero_ha t) h,
          not_skipped d.algorithm (length d.digest) h,
          algorithm_from_tpm-algorithm_to_tpm legacy t v d.algorithm (length d.digest) h,
          digest_from_union-IsDigest d.algorithm d.digest _ h,
        )
        (digests_loop-encode ds (result ++ (d ∷ [])) hs ∙ ap ok (append_assoc result (d ∷ []) ds))

  -- The digests that the code sends for an extension read back as the same list, when each has
  -- the size that the build gives its algorithm and they are at most as many as the TSS array
  -- has entries.
  pub to_domain_digests-to_tpm_digest_values :
      (ds : List DigestValue)
      → All (IsDigest legacy) ds
      → length ds ≤ t.digest_values_size
      → length ds < 2 ^ 32
      → to_domain_digests legacy t (to_tpm_digest_values legacy t ds) ≡ ok ds
  unfolding to_domain_digests to_tpm_digest_values
  to_domain_digests-to_tpm_digest_values ds h fits small =
      let count : length ds % 2 ^ 32 ≡ length ds = omega arith in
      let few : ltb t.digest_values_size (length ds) ≡ false = ground arith in
      rw
        (
          count,
          few,
          fill-replicate _ (zero_ha t) 0 t.digest_values_size ds [] refl fits,
          take-map-append encode ds _,
        )
        (digests_loop-encode ds [] h)
