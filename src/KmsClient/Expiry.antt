-- ===== src/KmsClient/Expiry.antt =====
-- `decrypt_data_key` over time: when the cache answers and when the proxy is asked.
use confidential_ml_feature.Prelude.{
  if_false, if_true, ltb, ℕ, ◌+◌, ◌<◌, ◌≡◌, refl, Bool, true, false, Option, none, some, Text,
  Bytes, arith, if◌then◌else◌, if-elim, Result-cases, Result, ok, err, inl, inr, ◌∙◌, ap,
}
use confidential_ml_feature.Python.Strip.{strip}
use confidential_ml_feature.OrderedDict
use confidential_ml_feature.OrderedDict.Recency.{get-evict-insert}
use confidential_ml_feature.KmsClient.{
  prepare, Error, CacheEntry, Cache, Client, Call, purge_expired, get_cached, store_cache_entry,
  request_plaintext, keep_plaintext, answer_or_request, lookup_or_request, decrypt_data_key,
}
use confidential_ml_feature.KmsClient.Cache.{
  IsValid, live, get-purge_expired, get_cached-IsValid, store_cache_entry-IsValid,
}

keep_plaintext-IsValid :
    (client : Client) (call : Call) (key : Text) (r : Result Error Bytes) (cache : Cache)
    → IsValid client cache
    → IsValid client (keep_plaintext client call key r cache).1
unfolding keep_plaintext
keep_plaintext-IsValid client call key (ok p) cache v =
    store_cache_entry-IsValid client call.stored_at call.purged_at key p cache v
keep_plaintext-IsValid client call key (err e) cache v = v

-- The cached plaintext of a lookup: that of an entry that has not expired.
abbrev plaintext_of : Option CacheEntry → Option Bytes
plaintext_of none = none
plaintext_of (some e) = some e.plaintext

get_cached-live :
    (client : Client) (now : ℕ) (key : Text) (cache : Cache)
    → IsValid client cache
    → (get_cached now key cache).0 ≡ plaintext_of (live now (OrderedDict.get key cache))
unfolding get_cached
get_cached-live client now key cache v = ground (arith, get-purge_expired now key cache v.distinct)

answer_or_request-IsValid :
    (client : Client) (call : Call) (tenant_id key : Text) (r : Option Bytes × Cache)
    → IsValid client r.1
    → IsValid client (answer_or_request client call tenant_id key r).1
unfolding answer_or_request
answer_or_request-IsValid client call tenant_id key (some p, cache) v = v
answer_or_request-IsValid client call tenant_id key (none, cache) v =
    keep_plaintext-IsValid client call key _ cache v

abbrev Keeps : Client → Result Error Bytes × Cache → Type 0
Keeps client r = IsValid client r.1

lookup_or_request-IsValid :
    (client : Client) (call : Call) (tenant_id key : Text) (cache : Cache)
    → IsValid client cache
    → IsValid client (lookup_or_request client call tenant_id key cache).1
unfolding lookup_or_request
lookup_or_request-IsValid client call tenant_id key cache v =
    if-elim (Keeps client) call.force_refresh _ _
      (λ _. answer_or_request-IsValid client call tenant_id key (none, cache) v)
      (λ _.
        answer_or_request-IsValid client call tenant_id key (get_cached call.looked_up_at key cache)
          (get_cached-IsValid client call.looked_up_at key cache v))

decrypt_of_prepare :
    (client : Client) (call : Call) (cache : Cache) {key : Text}
    → prepare client call ≡ ok key
    → decrypt_data_key client call cache
      ≡ lookup_or_request client call (strip call.tenant_id) key cache
unfolding decrypt_data_key
decrypt_of_prepare client call cache e = rw (e, decrypt_data_key) refl

refused_of_prepare :
    (client : Client) (call : Call) (cache : Cache) {e : Error}
    → prepare client call ≡ err e
    → decrypt_data_key client call cache ≡ (err e, cache)
unfolding decrypt_data_key
refused_of_prepare client call cache e = rw (e, decrypt_data_key) refl

-- Whatever the call, its arguments, the clock and the proxy's answer, and whether it returns or
-- raises: the cache keeps distinct keys and stays within its size.
pub decrypt_data_key-IsValid :
    (client : Client) (call : Call) (cache : Cache)
    → IsValid client cache
    → IsValid client (decrypt_data_key client call cache).1
decrypt_data_key-IsValid client call cache v = elim (Result-cases (prepare client call)) [
  | inl (key, e) ↦
      rw (decrypt_of_prepare client call cache e)
        (lookup_or_request-IsValid client call (strip call.tenant_id) key cache v)
  | inr (e, failed) ↦ rw (refused_of_prepare client call cache failed) v
]

-- After a store at `t₁` the entry is found until the ttl is over, whatever was evicted.
pub get-store_cache_entry :
    (client : Client) (t₁ t₂ : ℕ) (key : Text) (p : Bytes) (cache : Cache)
    → 0 < client.max_cache_size
    → OrderedDict.get key (store_cache_entry client t₁ t₂ key p cache)
      ≡ some (record { plaintext = p; expires_at = t₁ + client.cache_ttl })
unfolding store_cache_entry
get-store_cache_entry client t₁ t₂ key p cache h =
    get-evict-insert client.max_cache_size key _ (purge_expired t₂ cache) h

keep_plaintext_lem :
    (client : Client) (call : Call) (key : Text) (r : Result Error Bytes) (cache : Cache)
    → (keep_plaintext client call key r cache).0 ≡ r
unfolding keep_plaintext
keep_plaintext_lem client call key (ok p) cache = refl
keep_plaintext_lem client call key (err e) cache = refl

abbrev pub fetch : Client → Call → Result Error Bytes
fetch client call =
    request_plaintext client call.ciphertext_blob (strip call.tenant_id) call.user_data call.nonce

-- What a call answers that is not made to refresh, given the cache's entry for its key.
abbrev pub answer : Client → Call → Option CacheEntry → Result Error Bytes
answer client call none = fetch client call
answer client call (some e) = ok e.plaintext

answer_or_request_lem :
    (client : Client) (call : Call) (tenant_id key : Text) (r : Option Bytes × Cache)
    → (answer_or_request client call tenant_id key r).0 ≡ elim r.0 [
      | some p ↦ ok p
      | none ↦ request_plaintext client call.ciphertext_blob tenant_id call.user_data call.nonce
    ]
unfolding answer_or_request
answer_or_request_lem client call tenant_id key (some p, cache) = refl
answer_or_request_lem client call tenant_id key (none, cache) =
    keep_plaintext_lem client call key _ cache

answer-live :
    (client : Client) (call : Call) (o : Option CacheEntry)
    → elim (plaintext_of o) [ some p ↦ ok p | none ↦ fetch client call ] ≡ answer client call o
answer-live client call none = refl
answer-live client call (some e) = refl

if-fst :
    (b : Bool) (x y : Result Error Bytes × Cache) {r s : Result Error Bytes}
    → x.0 ≡ r
    → y.0 ≡ s
    → (if b then x else y).0 ≡ (if b then r else s)
if-fst true x y hx hy = hx
if-fst false x y hx hy = hy

-- A call that passes the checks answers from the cache exactly when no refresh is forced and there
-- is an entry for its key that has not expired at the lookup; else the answer is what the proxy's
-- reply gives.
pub decrypt_data_key-answer :
    (client : Client) (call : Call) (cache : Cache) (key : Text)
    → IsValid client cache
    → prepare client call ≡ ok key
    → (decrypt_data_key client call cache).0 ≡ (
        if call.force_refresh
        then fetch client call
        else answer client call (live call.looked_up_at (OrderedDict.get key cache)))
unfolding lookup_or_request
decrypt_data_key-answer client call cache key v e = rw (decrypt_of_prepare client call cache e) (
    if-fst call.force_refresh _ _
      (answer_or_request_lem client call (strip call.tenant_id) key (none, cache))
      (answer_or_request_lem client call (strip call.tenant_id) key
          (get_cached call.looked_up_at key cache)
        ∙ rw (get_cached-live client call.looked_up_at key cache v)
            (answer-live client call (live call.looked_up_at (OrderedDict.get key cache)))))

stored_of_refresh :
    (client : Client) (call : Call) (cache : Cache) {key : Text} {p : Bytes}
    → prepare client call ≡ ok key
    → call.force_refresh ≡ true
    → fetch client call ≡ ok p
    → (decrypt_data_key client call cache).1
      ≡ store_cache_entry client call.stored_at call.purged_at key p cache
unfolding lookup_or_request answer_or_request keep_plaintext
stored_of_refresh client call cache e forced got = rw (decrypt_of_prepare client call cache e) (
    ap (λ (r : Result Error Bytes × Cache). r.1) (if_true call.force_refresh _ _ forced)
    ∙ rw (got, keep_plaintext) refl)

-- After a forced refresh that got a plaintext, over a valid cache with room for an entry, the next
-- call for the same key without a refresh returns that plaintext if it is looked up within the time
-- to live, whatever the proxy, the attestation provider and the hash of the client that makes it,
-- which has the same cache size, would answer; after that it is the proxy's answer again.
pub decrypt_data_key-repeat :
    (client other : Client) (call later : Call) (cache : Cache) (key : Text) (p : Bytes)
    → IsValid client cache
    → 0 < client.max_cache_size
    → other.max_cache_size ≡ client.max_cache_size
    → prepare client call ≡ ok key
    → prepare other later ≡ ok key
    → call.force_refresh ≡ true
    → later.force_refresh ≡ false
    → fetch client call ≡ ok p
    → (decrypt_data_key other later (decrypt_data_key client call cache).1).0 ≡ (
        if ltb later.looked_up_at (call.stored_at + client.cache_ttl)
        then ok p
        else fetch other later)
decrypt_data_key-repeat client other call later cache key p v room same e e' forced unforced got =
    let after = (decrypt_data_key client call cache).1 in
    let kept = decrypt_data_key-IsValid client call cache v in
    let found : OrderedDict.get key after
        ≡ some (record { plaintext = p; expires_at = call.stored_at + client.cache_ttl }) =
      ap (OrderedDict.get key) (stored_of_refresh client call cache e forced got)
      ∙ get-store_cache_entry client call.stored_at call.purged_at key p cache room in
    decrypt_data_key-answer other later after key
      (record { distinct = kept.distinct; bounded = omega arith }) e'
    ∙ if_false later.force_refresh _ _ unforced
    ∙ rw found (ground arith)
