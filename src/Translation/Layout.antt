-- ===== src/Translation/Layout.antt =====
-- How a return code of the TSS is laid out, and what error_translation.cpp reads of it: the layer
-- in the third byte, and below it the code, with the marks of a TPM code of format one.
use tpmkit.Base.{ℕ, ◌+◌, ◌*◌, ◌%◌, ◌≤◌, ◌<◌, ◌≡◌, refl, ◌∙◌, arith, bit_and, ◌==◌, if◌then◌else◌}
use tpmkit.Base.Masks.{low_bytes, third_byte, bit_seven, all_but_six}
use tpmkit.Translation.{Codes, rc_layer, rc_base, normalize_tpm_base}

-- What the TSS headers document of the constants that a code is taken apart with.
pub record HasTssLayout (c : Codes) : Type 0 where
  pub layer_mask_lem : c.layer_mask ≡ 0xff0000
  pub rc_fmt1_lem : c.rc_fmt1 ≡ 0x80
  pub tpm_layer_lem : c.tpm_layer ≡ 0
  pub esapi_layer_lem : c.esapi_layer ≡ 0x070000
  pub tcti_layer_lem : c.tcti_layer ≡ 0x0a0000

-- The layers whose codes are documented.
pub data Layer : Type 0 where
  tpm esapi tcti : Layer

abbrev pub layer_number : Layer → ℕ
layer_number tpm = 0
layer_number esapi = 7
layer_number tcti = 10

-- `Carries l code low`: with `low` in its lower 16 bits, a return code of layer `l` means `code`. A
-- TPM code of format zero, and a code of the other layers, is there as it is. One of format one has
-- the number of a parameter, a handle or a session above its byte, and bit 6 says that it is that
-- of a parameter.
pub data Carries : Layer → ℕ → ℕ → Type 0 where
  format_zero : {code : ℕ} → code < 0x10000 → code % 0x100 < 0x80 → Carries tpm code code
  format_one :
      {code : ℕ} (number parameter : ℕ)
      → 0x80 ≤ code
      → code < 0xc0
      → number < 0x100
      → parameter < 2
      → Carries tpm code (code + parameter * 0x40 + number * 0x100)
  of_esapi : {code : ℕ} → code < 0x10000 → Carries esapi code code
  of_tcti : {code : ℕ} → code < 0x10000 → Carries tcti code code

-- A return code, with what stands in its reserved upper byte.
abbrev pub return_code : (reserved : ℕ) → Layer → (low : ℕ) → ℕ
return_code reserved l low = reserved * 0x1000000 + layer_number l * 0x10000 + low

pub low-lt : {l : Layer} {code low : ℕ} → Carries l code low → low < 0x10000
low-lt (format_zero small zero_bit) = small
low-lt (format_one number parameter above below n p) = omega arith
low-lt (of_esapi small) = small
low-lt (of_tcti small) = small

abbrev pub layer_code : Codes → Layer → ℕ
layer_code c tpm = c.tpm_layer
layer_code c esapi = c.esapi_layer
layer_code c tcti = c.tcti_layer

module _ {c : Codes} (h : HasTssLayout c) where
  layer_code_lem : (l : Layer) → layer_code c l ≡ layer_number l * 0x10000
  layer_code_lem tpm = h.tpm_layer_lem
  layer_code_lem esapi = h.esapi_layer_lem
  layer_code_lem tcti = h.tcti_layer_lem

  layer_number-lt : (l : Layer) → layer_number l < 0x100
  layer_number-lt tpm = omega arith
  layer_number-lt esapi = omega arith
  layer_number-lt tcti = omega arith

  pub rc_layer-return_code :
      (reserved : ℕ) (l : Layer) (low : ℕ)
      → low < 0x10000
      → rc_layer c (return_code reserved l low) ≡ layer_code c l
  unfolding rc_layer
  rc_layer-return_code reserved l low small =
      rw h.layer_mask_lem (
        omega (arith, third_byte (return_code reserved l low), layer_code_lem l, layer_number-lt l))

  plain_lem : (code : ℕ) → code % 0x100 < 0x80 → normalize_tpm_base c code ≡ code
  unfolding normalize_tpm_base
  plain_lem code zero_bit =
      let clear : bit_and code c.rc_fmt1 ≡ 0 = rw h.rc_fmt1_lem (omega (arith, bit_seven code)) in
      rw clear refl

  marked_lem :
      (code number parameter : ℕ)
      → 0x80 ≤ code
      → code < 0xc0
      → parameter < 2
      → normalize_tpm_base c (code + parameter * 0x40 + number * 0x100) ≡ code
  unfolding normalize_tpm_base
  marked_lem code number parameter above below p =
      let low = code + parameter * 0x40 + number * 0x100 in
      let set : bit_and low 0x80 ≡ 0x80 = omega (arith, bit_seven low) in
      rw (h.rc_fmt1_lem, set) (omega (arith, all_but_six low))

  base_lem :
      (rc layer low : ℕ)
      → rc % 0x10000 ≡ low
      → rc_base c rc layer ≡ (if layer == c.tpm_layer then normalize_tpm_base c low else low)
  unfolding rc_base
  base_lem rc layer low e = rw (low_bytes rc ∙ e) refl

  pub rc_base-return_code :
      (reserved : ℕ) {l : Layer} {code low : ℕ}
      → Carries l code low
      → rc_base c (return_code reserved l low) (layer_code c l) ≡ code
  rc_base-return_code reserved (format_zero {code} small zero_bit) =
      base_lem _ c.tpm_layer code (omega arith) ∙ ground (arith, plain_lem code zero_bit)
  rc_base-return_code reserved (format_one {code} number parameter above below n p) =
      base_lem _ c.tpm_layer (code + parameter * 0x40 + number * 0x100) (omega arith)
      ∙ ground (arith, marked_lem code number parameter above below p)
  rc_base-return_code reserved (of_esapi {code} small) =
      base_lem _ c.esapi_layer code (omega arith)
      ∙ ground (arith, h.tpm_layer_lem, h.esapi_layer_lem)
  rc_base-return_code reserved (of_tcti {code} small) =
      base_lem _ c.tcti_layer code (omega arith) ∙ ground (arith, h.tpm_layer_lem, h.tcti_layer_lem)

  -- The layers differ in their numbers.
  pub layer_code-injective : (l k : Layer) → layer_code c l ≡ layer_code c k → l ≡ k
  layer_code-injective l k e = apart l k (omega (arith, e, layer_code_lem l, layer_code_lem k))
    where
      apart : (l k : Layer) → layer_number l ≡ layer_number k → l ≡ k
      apart tpm tpm e = refl
      apart tpm esapi e = absurd (omega arith)
      apart tpm tcti e = absurd (omega arith)
      apart esapi tpm e = absurd (omega arith)
      apart esapi esapi e = refl
      apart esapi tcti e = absurd (omega arith)
      apart tcti tpm e = absurd (omega arith)
      apart tcti esapi e = absurd (omega arith)
      apart tcti tcti e = refl
