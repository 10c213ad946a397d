-- ===== src/KmsClient/Threads.antt =====
-- enclave/kms_client.py: `EnclaveKMSClient` under several threads. The cache's lock is held to look a
-- key up and to store one, and not during the request in between.
pub mod Alone
pub mod Isolated
use confidential_ml_feature.Prelude.{
  ℕ, Option, none, some, [], if◌then◌else◌, Text, Bytes, Result, ok, err,
}
use confidential_ml_feature.Python.Strip.{strip}
use confidential_ml_feature.KmsClient.{
  Error, Cache, Client, Call, get_cached, store_cache_entry, request_plaintext, prepare, cache_size,
  clear_cache,
}

-- Where a thread stands in one call of `decrypt_data_key`: before its checks, before the lookup, the
-- request or the store under this cache key, or done.
pub data Work : Type 0 where
  idle : Work
  asked : Call → Work
  looking : Call → Text → Work
  requesting : Call → Text → Work
  keeping : Call → Text → Bytes → Work
  answered : Call → Result Error Bytes → Work

unfoldable pub prepared : Call → Result Error Text → Work
prepared call (ok key) = if call.force_refresh then requesting call key else looking call key
prepared call (err e) = answered call (err e)

unfoldable pub looked_up : Call → Text → Option Bytes → Work
looked_up call key (some p) = answered call (ok p)
looked_up call key none = requesting call key

unfoldable pub requested : Call → Text → Result Error Bytes → Work
requested call key (ok p) = keeping call key p
requested call key (err e) = answered call (err e)

-- What a thread does next: one locked section, or the code between two.
unfoldable pub continue : Client → Work → Cache → Work × Cache
unfolding prepared looked_up requested
continue client idle cache = (idle, cache)
continue client (asked call) cache = (prepared call (prepare client call), cache)
continue client (looking call key) cache =
    let (found, cache') = get_cached call.looked_up_at key cache in
    (looked_up call key found, cache')
continue client (requesting call key) cache = (
  requested call key (
      request_plaintext client call.ciphertext_blob (strip call.tenant_id) call.user_data
        call.nonce),
  cache,
)
continue client (keeping call key p) cache =
    (answered call (ok p), store_cache_entry client call.stored_at call.purged_at key p cache)
continue client (answered call r) cache = (answered call r, cache)

-- A free thread makes one of these calls, clears the cache or asks for its size; one that is done
-- becomes free; or a thread goes on.
pub data Move (client : Client) (Makes : Call → Type 0) : Work → Cache → Work → Cache → Type 0 where
  make :
      (call : Call) {cache : Cache} → Makes call → Move client Makes idle cache (asked call) cache
  clear : {cache : Cache} → Move client Makes idle cache idle (clear_cache cache)
  size : (now : ℕ) {cache : Cache} → Move client Makes idle cache idle (cache_size now cache).1
  finish :
      (call : Call) (r : Result Error Bytes) {cache : Cache}
      → Move client Makes (answered call r) cache idle cache
  go_on :
      (w : Work) {cache : Cache}
      → Move client Makes w cache (continue client w cache).0 (continue client w cache).1
