-- ===== src/Attestation/Pcrs.antt =====
-- `MockNSM.__init__` of enclave/attestation.py, with `_normalize_pcrs`.
use confidential_ml_feature.Prelude.{
  ℕ, Bool, ◌||◌, Option, none, some, List, [], ◌∷◌, ◌==◌, if◌then◌else◌, Text, Bytes, length,
  Result, ok, err, ◌>>=◌, ◌>>◌, require, ℤ, pos,
}
use confidential_ml_feature.Python.Codes.{codes}
use confidential_ml_feature.Attestation.MockNsm.{MockNsm}
use confidential_ml_feature.Cbor.{int_eq}

-- What Python and the environment give: `int(_)` and `bytes.fromhex` of a text, with `none` for
-- ValueError, and what `_default_pcr0` returns.
pub record Readers : Type 0 where
  pub int_of : Text → Option ℤ
  pub fromhex : Text → Option Bytes
  pub default_pcr0 : Text

-- The keys and values of the raw mapping; the `other_` ones are of
-- a type that is refused.
pub data RawIndex : Type 0 where
  number : ℤ → RawIndex
  numeral : Text → RawIndex
  other_index : RawIndex

pub data RawValue : Type 0 where
  raw : Bytes → RawValue
  hexadecimal : Text → RawValue
  other_value : RawValue

pub data PcrError : Type 0 where
  index_no_integer value_no_hexadecimal value_of_other_type value_of_other_length : PcrError

-- normalized[index] = value
unfoldable pub set_pcr : ℤ → Bytes → List (ℤ × Bytes) → List (ℤ × Bytes)
set_pcr index value [] = (index, value) ∷ []
set_pcr index value ((j, w) ∷ pcrs) =
    let rest = set_pcr index value pcrs in
    if int_eq j index then (j, value) ∷ pcrs else (j, w) ∷ rest

-- len(normalized_value) in {32, 48, 64}
abbrev pub is_pcr_length : ℕ → Bool
is_pcr_length n = n == 32 || n == 48 || n == 64

module _ (readers : Readers) where
  unfoldable pub read_index : RawIndex → Result PcrError ℤ
  read_index (number n) = ok n
  read_index (numeral s) = elim (readers.int_of s) [ none ↦ err index_no_integer | some n ↦ ok n ]
  read_index other_index = err index_no_integer

  unfoldable pub read_value : RawValue → Result PcrError Bytes
  read_value (raw b) = ok b
  read_value (hexadecimal s) = elim (readers.fromhex s) [
    | none ↦ err value_no_hexadecimal
    | some b ↦ ok b
  ]
  read_value other_value = err value_of_other_type

  -- The loop of `_normalize_pcrs`.
  unfoldable pub normalize_pcrs :
      List (RawIndex × RawValue) → List (ℤ × Bytes) → Result PcrError (List (ℤ × Bytes))
  unfolding read_index read_value set_pcr
  normalize_pcrs [] normalized = ok normalized
  normalize_pcrs ((index, value) ∷ pcrs) normalized = do
    i ← read_index index
    b ← read_value value
    require (is_pcr_length (length b)) value_of_other_length
    normalize_pcrs pcrs (set_pcr i b normalized)

  -- pcrs or {0: _default_pcr0()}
  abbrev pub pcrs_or_default : Option (List (RawIndex × RawValue)) → List (RawIndex × RawValue)
  pcrs_or_default (some (p ∷ ps)) = p ∷ ps
  pcrs_or_default _ = (number (pos 0), hexadecimal readers.default_pcr0) ∷ []

  -- certificate or b"mock-certificate"
  abbrev certificate_or_default : Option Bytes → Bytes
  certificate_or_default (some (b ∷ bs)) = b ∷ bs
  certificate_or_default _ = codes "mock-certificate"

  -- cabundle or [b"mock-ca"]
  abbrev cabundle_or_default : Option (List Bytes) → List Bytes
  cabundle_or_default (some (b ∷ bs)) = b ∷ bs
  cabundle_or_default _ = codes "mock-ca" ∷ []

  -- `__init__`
  unfoldable pub make_nsm :
      Option (List (RawIndex × RawValue))
      → Text
      → Option ℤ
      → Text
      → Option Bytes
      → Option (List Bytes)
      → Result PcrError MockNsm
  unfolding normalize_pcrs
  make_nsm pcrs module_id timestamp_ms digest certificate cabundle = do
    normalized ← normalize_pcrs (pcrs_or_default pcrs) []
    ok (record {
      pcrs = normalized;
      module_id = module_id;
      timestamp_ms = timestamp_ms;
      digest = digest;
      certificate = certificate_or_default certificate;
      cabundle = cabundle_or_default cabundle;
    })
