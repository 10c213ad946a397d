-- ===== src/KmsClient.antt =====
-- enclave/kms_client.py: `EnclaveKMSClient`, its TTL cache of plaintext data keys, and the request
-- that it hands to the proxy. The clock's readings are arguments, in ticks; the attestation
-- provider, the transport, the unwrap handler and the hash are those that the constructor is given
-- or Python provides.
pub mod Threads
pub mod Cache
pub mod Expiry
pub mod CacheKey
pub mod Isolation
pub mod Construction
use confidential_ml_feature.Prelude.{
  ℕ, ◌+◌, ◌≤◌, ◌<◌, List, [], ◌∷◌, ◌++◌, map, Bool, true, false, Option, none, some, Text, Bytes,
  Result, ok, err, ◌>>=◌, ◌>>◌, leb, not, require, length, if◌then◌else◌,
}
use confidential_ml_feature.Python.Codes.{codes}
use confidential_ml_feature.Python.JsonText.{dumps}
use confidential_ml_feature.Python.Strip.{strip, is_empty}
use confidential_ml_feature.Python.Utf8
use confidential_ml_feature.OrderedDict

pub record CacheEntry : Type 0 where
  pub plaintext : Bytes
  pub expires_at : ℕ

abbrev pub Cache : Type 0
Cache = List (Text × CacheEntry)

-- What `decrypt_data_key` raises: its own errors, those of the provider and of the unwrap handler,
-- and the botocore errors, which it passes on.
pub data Error : Type 0 where
  empty_tenant_id empty_ciphertext_blob empty_document unreachable : Error
  no_unwrap_handler no_key_material botocore_error : Error
  unicode_encode provider_failed unwrap_failed : Error

pub record Request : Type 0 where
  pub key_id : Text
  pub ciphertext_blob : Bytes
  pub tenant_id : Text
  pub key_encryption_algorithm : Text
  pub attestation_document : Bytes

-- The three keys of the proxy's response that are read; `none` where the value is no bytes.
pub record Response : Type 0 where
  pub plaintext : Option Bytes
  pub plaintext_lower : Option Bytes
  pub ciphertext_for_recipient : Option Bytes

pub data Reply : Type 0 where
  response : Response → Reply
  botocore_failure other_failure : Reply

pub record Client : Type 0 where
  pub key_id : Text
  pub cache_ttl : ℕ
  pub max_cache_size : ℕ
  pub public_key : Option Bytes
  pub attestation_provider : Option Bytes → Bytes → Option Bytes → Result Error Bytes
  pub transport : Request → Reply
  pub unwrap : Option (Response → Result Error Bytes)
  pub sha256_hex : Bytes → Text

-- `_build_cache_key`
unfoldable pub build_cache_key : Client → Bytes → Text → Result Error Text
build_cache_key client ciphertext_blob tenant_id = elim (Utf8.encode tenant_id) [
  | none ↦ err unicode_encode
  | some tenant ↦ ok (client.sha256_hex (tenant ++ 0 ∷ ciphertext_blob))
]

abbrev pub is_expired : ℕ → CacheEntry → Bool
is_expired now entry = leb entry.expires_at now

-- [key for key, entry in self._cache.items() if entry.expires_at <= now]
unfoldable pub expired_keys : ℕ → Cache → List Text
expired_keys now [] = []
expired_keys now ((k, e) ∷ cache) =
    let rest = expired_keys now cache in if is_expired now e then k ∷ rest else rest

-- for key in expired_keys: self._cache.pop(key, None)
unfoldable pub pop_all : List Text → Cache → Cache
pop_all [] cache = cache
pop_all (k ∷ ks) cache = pop_all ks (OrderedDict.remove k cache)

-- `_purge_expired_locked`
unfoldable pub purge_expired : ℕ → Cache → Cache
unfolding expired_keys pop_all
purge_expired now cache = pop_all (expired_keys now cache) cache

-- `_get_cached`
unfoldable pub get_cached : ℕ → Text → Cache → Option Bytes × Cache
unfolding purge_expired
get_cached now key cache =
    let live = purge_expired now cache in
    elim (OrderedDict.get key live) [
      | none ↦ (none, live)
      | some e ↦ (some e.plaintext, OrderedDict.move_to_end key live)
    ]

-- `_store_cache_entry`, which reads the clock twice.
unfoldable pub store_cache_entry : Client → ℕ → ℕ → Text → Bytes → Cache → Cache
unfolding purge_expired
store_cache_entry client t₁ t₂ key plaintext cache =
    let entry : CacheEntry = record { plaintext = plaintext; expires_at = t₁ + client.cache_ttl } in
    OrderedDict.evict client.max_cache_size
      (OrderedDict.move_to_end key (OrderedDict.insert key entry (purge_expired t₂ cache)))

-- `_extract_plaintext`
unfoldable pub extract_plaintext : Client → Response → Result Error Bytes
extract_plaintext client r = elim r.plaintext [
  | some p ↦ ok p
  | none ↦ elim r.plaintext_lower [
    | some p ↦ ok p
    | none ↦ elim r.ciphertext_for_recipient [
      | some c ↦ elim client.unwrap [ none ↦ err no_unwrap_handler | some f ↦ f r ]
      | none ↦ err no_key_material
    ]
  ]
]

-- `_build_user_data`
unfoldable pub build_user_data : Client → Text → Bytes
build_user_data client tenant_id = dumps (
    (codes "tenant_id", tenant_id)
    ∷ (codes "operation", codes "kms.decrypt")
    ∷ (codes "key_id", client.key_id)
    ∷ [])

-- user_data or self._build_user_data(tenant_id)
abbrev user_data_or : Option Bytes → Bytes → Bytes
user_data_or (some (b ∷ bs)) default = b ∷ bs
user_data_or _ default = default

unfoldable pub build_request : Client → Bytes → Text → Bytes → Request
build_request client ciphertext_blob tenant_id document = record {
  key_id = client.key_id;
  ciphertext_blob = ciphertext_blob;
  tenant_id = tenant_id;
  key_encryption_algorithm = codes "RSAES_OAEP_SHA_256";
  attestation_document = document;
}

-- The try block around the transport, and `_extract_plaintext` of what it returns.
unfoldable pub receive : Client → Reply → Result Error Bytes
unfolding extract_plaintext
receive client (response r) = extract_plaintext client r
receive client botocore_failure = err botocore_error
receive client other_failure = err unreachable

-- The part of `decrypt_data_key` that a cache hit skips: the attestation document, the request, and
-- the plaintext of the reply.
unfoldable pub request_plaintext :
    Client → Bytes → Text → Option Bytes → Option Bytes → Result Error Bytes
unfolding build_request build_user_data receive
request_plaintext client ciphertext_blob tenant_id user_data nonce = do
  document ←
      client.attestation_provider client.public_key
        (user_data_or user_data (build_user_data client tenant_id)) nonce
  require (not (is_empty document)) empty_document
  receive client (client.transport (build_request client ciphertext_blob tenant_id document))

-- The arguments of `decrypt_data_key`, and the three readings of the clock, if it comes to them.
pub record Call : Type 0 where
  pub ciphertext_blob : Bytes
  pub tenant_id : Text
  pub user_data : Option Bytes
  pub nonce : Option Bytes
  pub force_refresh : Bool
  pub looked_up_at : ℕ
  pub stored_at : ℕ
  pub purged_at : ℕ

-- A reply that is stored, or an error that is raised.
unfoldable pub keep_plaintext :
    Client → Call → Text → Result Error Bytes → Cache → Result Error Bytes × Cache
unfolding store_cache_entry
keep_plaintext client call key (ok p) cache =
    (ok p, store_cache_entry client call.stored_at call.purged_at key p cache)
keep_plaintext client call key (err e) cache = (err e, cache)

-- What follows `_get_cached`: its plaintext, or a request.
unfoldable pub answer_or_request :
    Client → Call → Text → Text → Option Bytes × Cache → Result Error Bytes × Cache
answer_or_request client call tenant_id key (some p, cache) = (ok p, cache)
answer_or_request client call tenant_id key (none, cache) =
    keep_plaintext client call key
      (request_plaintext client call.ciphertext_blob tenant_id call.user_data call.nonce) cache

-- `decrypt_data_key` from the cache lookup on.
unfoldable pub lookup_or_request : Client → Call → Text → Text → Cache → Result Error Bytes × Cache
lookup_or_request client call tenant_id key cache =
    if call.force_refresh
    then answer_or_request client call tenant_id key (none, cache)
    else answer_or_request client call tenant_id key (get_cached call.looked_up_at key cache)

-- The checks at the start of `decrypt_data_key`, and the cache key.
unfoldable pub prepare : Client → Call → Result Error Text
prepare client call =
    if is_empty (strip call.tenant_id)
    then err empty_tenant_id
    else if is_empty call.ciphertext_blob
    then err empty_ciphertext_blob
    else build_cache_key client call.ciphertext_blob (strip call.tenant_id)

-- `decrypt_data_key`
unfoldable pub decrypt_data_key : Client → Call → Cache → Result Error Bytes × Cache
decrypt_data_key client call cache = elim (prepare client call) [
  | err e ↦ (err e, cache)
  | ok key ↦ lookup_or_request client call (strip call.tenant_id) key cache
]

-- `cache_size` and `clear_cache`
unfoldable pub cache_size : ℕ → Cache → ℕ × Cache
unfolding purge_expired
cache_size now cache = let live = purge_expired now cache in (length live, live)

abbrev pub clear_cache : Cache → Cache
clear_cache cache = []
