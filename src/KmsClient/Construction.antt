-- ===== src/KmsClient/Construction.antt =====
-- `EnclaveKMSClient.__init__` of enclave/kms_client.py, with the settings that it reads from the
-- environment. A time is a number of ticks.
use confidential_ml_feature.Prelude.{
  ℕ, zero, suc, ◌<◌, ◌≡◌, not, Option, none, some, [], ◌∷◌, arith, Text, Bytes, Result, ok, err,
  ◌>>=◌, ◌>>◌, require, Ensures, Ensures-bind, ℤ, pos, negsuc,
}
use confidential_ml_feature.Python.Codes.{codes}
use confidential_ml_feature.Python.Strip.{strip, is_empty}
use confidential_ml_feature.KmsClient.{Client}

-- What Python and the environment give: `float(_)`, in ticks, `int(_)` and the strict
-- `base64.b64decode` of a text, with `none` for ValueError, and the three variables, with `none` for
-- one that is not set.
pub record Environment : Type 0 where
  pub ticks_of : Text → Option ℤ
  pub int_of : Text → Option ℤ
  pub b64decode : Text → Option Bytes
  pub cache_ttl_seconds : Option Text
  pub cache_max_size : Option Text
  pub public_key_b64 : Option Text

pub data ConstructionError : Type 0 where
  empty_key_id no_number ttl_not_positive size_not_positive bad_public_key : ConstructionError

-- if resolved <= 0: raise
unfoldable pub require_positive : ConstructionError → ℤ → Result ConstructionError ℕ
require_positive e (pos (suc n)) = ok (suc n)
require_positive e n = err e

abbrev number_or_raise : Option ℤ → Result ConstructionError ℤ
number_or_raise none = err no_number
number_or_raise (some n) = ok n

-- os.getenv(_, default)
abbrev variable_or : Text → Option Text → Text
variable_or default none = default
variable_or default (some s) = s

module _ (environment : Environment) where
  -- `_resolve_cache_ttl`, for a value in ticks; the default is 60.0 seconds.
  unfoldable pub resolve_cache_ttl : Option ℤ → Result ConstructionError ℕ
  unfolding require_positive
  resolve_cache_ttl (some value) = require_positive ttl_not_positive value
  resolve_cache_ttl none = do
    n ←
        number_or_raise
          (environment.ticks_of (variable_or (codes "60.0") environment.cache_ttl_seconds))
    require_positive ttl_not_positive n

  -- `_resolve_cache_size`
  unfoldable pub resolve_cache_size : Option ℤ → Result ConstructionError ℕ
  unfolding require_positive
  resolve_cache_size (some value) = require_positive size_not_positive value
  resolve_cache_size none = do
    n ← number_or_raise (environment.int_of (variable_or (codes "128") environment.cache_max_size))
    require_positive size_not_positive n

  -- `_load_public_key_from_env`
  unfoldable pub load_public_key_from_env : Result ConstructionError (Option Bytes)
  load_public_key_from_env = elim environment.public_key_b64 [
    | none ↦ ok none
    | some [] ↦ ok none
    | some (c ∷ s) ↦ elim (environment.b64decode (c ∷ s)) [
      | none ↦ err bad_public_key
      | some key ↦ ok (some key)
    ]
  ]

  -- attestation_public_key or self._load_public_key_from_env()
  unfoldable pub public_key_or_env : Option Bytes → Result ConstructionError (Option Bytes)
  unfolding load_public_key_from_env
  public_key_or_env (some (b ∷ bs)) = ok (some (b ∷ bs))
  public_key_or_env _ = load_public_key_from_env

  -- `__init__`, on a client with the collaborators that it is given; the cache starts empty.
  unfoldable pub make_client :
      Text → Client → Option ℤ → Option ℤ → Option Bytes → Result ConstructionError Client
  unfolding resolve_cache_ttl resolve_cache_size public_key_or_env
  make_client key_id given cache_ttl_seconds max_cache_size attestation_public_key = do
    require (not (is_empty (strip key_id))) empty_key_id
    ttl ← resolve_cache_ttl cache_ttl_seconds
    size ← resolve_cache_size max_cache_size
    key ← public_key_or_env attestation_public_key
    ok (record given {
      key_id = strip key_id;
      cache_ttl = ttl;
      max_cache_size = size;
      public_key = key;
    })

require_positive-positive :
    (e : ConstructionError) (value : ℤ) (n : ℕ) → require_positive e value ≡ ok n → 0 < n
unfolding require_positive
require_positive-positive e (pos (suc m)) n h = ground (arith, h)
require_positive-positive e (pos zero) n h = absurd (ground (arith, h))
require_positive-positive e (negsuc m) n h = absurd (ground (arith, h))

abbrev pub IsPositive : Client → Type 0
IsPositive client = (0 < client.cache_ttl) × (0 < client.max_cache_size)

-- A bind whose second part is a positive number.
bind-positive :
    (e : ConstructionError) (r : Result ConstructionError ℤ) (n : ℕ)
    → (r >>= require_positive e) ≡ ok n
    → 0 < n
bind-positive e (ok value) n h = require_positive-positive e value n h
bind-positive e (err x) n h = absurd (ground (arith, h))

module _ (environment : Environment) where
  resolve_cache_ttl-positive :
      (value : Option ℤ) (n : ℕ) → resolve_cache_ttl environment value ≡ ok n → 0 < n
  unfolding resolve_cache_ttl
  resolve_cache_ttl-positive (some value) n h = require_positive-positive ttl_not_positive value n h
  resolve_cache_ttl-positive none n h = bind-positive ttl_not_positive _ n h

  resolve_cache_size-positive :
      (value : Option ℤ) (n : ℕ) → resolve_cache_size environment value ≡ ok n → 0 < n
  unfolding resolve_cache_size
  resolve_cache_size-positive (some value) n h =
      require_positive-positive size_not_positive value n h
  resolve_cache_size-positive none n h = bind-positive size_not_positive _ n h

  -- A client that the constructor makes keeps keys for a time, and at least one of them.
  pub make_client-IsPositive :
      (key_id : Text) (given : Client) (cache_ttl_seconds max_cache_size : Option ℤ)
      (attestation_public_key : Option Bytes)
      → Ensures IsPositive (
          make_client environment key_id given cache_ttl_seconds max_cache_size
            attestation_public_key)
  unfolding make_client
  make_client-IsPositive key_id given cache_ttl_seconds max_cache_size attestation_public_key =
      Ensures-bind IsPositive (require (not (is_empty (strip key_id))) empty_key_id) _ (λ u g.
        Ensures-bind IsPositive (resolve_cache_ttl environment cache_ttl_seconds) _ (λ ttl t.
          Ensures-bind IsPositive (resolve_cache_size environment max_cache_size) _ (λ size z.
            Ensures-bind IsPositive (public_key_or_env environment attestation_public_key) _
              (λ key k. (
                resolve_cache_ttl-positive cache_ttl_seconds ttl t,
                resolve_cache_size-positive max_cache_size size z,
              )))))
