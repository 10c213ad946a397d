-- ===== src/KmsClient/Isolation.antt =====
-- enclave/kms_client.py: whose plaintext the cache of `EnclaveKMSClient` hands out.
use mathlib.Core.Path.{subst}
use confidential_ml_feature.Prelude.{
  ℕ, ◌≡◌, refl, List, [], ◌∷◌, Option, none, some, Text, not, require, Bytes, arith, All, Result,
  ok, err, >>=-eq-ok, Result-cases, Option-cases, inl, inr, if-elim,
}
use confidential_ml_feature.Python.Strip.{strip, is_empty}
use confidential_ml_feature.OrderedDict
use confidential_ml_feature.OrderedDict.Entries.{
  All-get, All-remove, All-insert, All-move_to_end, All-evict,
}
use confidential_ml_feature.KmsClient.{
  Error, CacheEntry, Cache, Client, Call, pop_all, expired_keys, purge_expired, get_cached,
  empty_document, store_cache_entry, build_cache_key, request_plaintext, keep_plaintext,
  answer_or_request, receive, build_request, lookup_or_request, prepare, decrypt_data_key,
}
use confidential_ml_feature.KmsClient.CacheKey.{NoNul, CollisionFree, build_cache_key-injective}

-- `p` is what some reply of the proxy gives to a request with this tenant's encryption context and
-- this ciphertext.
abbrev pub ReleasedFor : Client → Text → Bytes → Bytes → Type 0
ReleasedFor client tenant_id ciphertext_blob p =
    (document : Bytes) × (receive client
        (client.transport (build_request client ciphertext_blob tenant_id document))
      ≡ ok p)

pub request_plaintext-ReleasedFor :
    (client : Client) (blob : Bytes) (tenant_id : Text) (user_data nonce : Option Bytes) (p : Bytes)
    → request_plaintext client blob tenant_id user_data nonce ≡ ok p
    → ReleasedFor client tenant_id blob p
unfolding request_plaintext
request_plaintext-ReleasedFor client blob tenant_id user_data nonce p e =
    let (document, e₁, e₂) =
      >>=-eq-ok (client.attestation_provider client.public_key _ nonce) _ e in
    let (u, e₃, e₄) = >>=-eq-ok (require (not (is_empty document)) empty_document) _ e₂ in
    (document, e₄)

-- Where a cached plaintext came from.
pub record Released (client : Client) (e : Text × CacheEntry) : Type 0 where
  pub tenant_id : Text
  pub ciphertext_blob : Bytes
  pub no_nul : NoNul tenant_id
  pub cached_under : build_cache_key client ciphertext_blob tenant_id ≡ ok e.0
  pub released : ReleasedFor client tenant_id ciphertext_blob e.1.plaintext

-- Every cached plaintext was released by the proxy for the tenant and the ciphertext of its key.
abbrev pub IsReleased : Client → Cache → Type 0
IsReleased client cache = All (Released client) cache

module _ (client : Client) where
  pop_all-IsReleased :
      (ks : List Text) (cache : Cache)
      → IsReleased client cache
      → IsReleased client (pop_all ks cache)
  unfolding pop_all
  pop_all-IsReleased [] cache h = h
  pop_all-IsReleased (k ∷ ks) cache h =
      pop_all-IsReleased ks (OrderedDict.remove k cache) (All-remove (Released client) k cache h)

  pub purge_expired-IsReleased :
      (now : ℕ) (cache : Cache)
      → IsReleased client cache
      → IsReleased client (purge_expired now cache)
  unfolding purge_expired
  purge_expired-IsReleased now cache h = pop_all-IsReleased (expired_keys now cache) cache h

  pub store_cache_entry-IsReleased :
      (t₁ t₂ : ℕ) (key : Text) (p : Bytes) (cache : Cache)
      → ((expiry : ℕ) → Released client (key, record { plaintext = p; expires_at = expiry }))
      → IsReleased client cache
      → IsReleased client (store_cache_entry client t₁ t₂ key p cache)
  unfolding store_cache_entry
  store_cache_entry-IsReleased t₁ t₂ key p cache new h =
      All-evict (Released client) client.max_cache_size _ (
        All-move_to_end (Released client) key _
          (All-insert (Released client) key _ _ (new _) (purge_expired-IsReleased t₂ cache h)))

-- The state after a call is clean, and a plaintext that it returns was released for this tenant and
-- this ciphertext.
abbrev pub IsClean : Client → Text → Bytes → Result Error Bytes × Cache → Type 0
IsClean client tenant_id blob r =
    IsReleased client r.1 × ((p : Bytes) → r.0 ≡ ok p → ReleasedFor client tenant_id blob p)

module _ (client : Client) (call : Call) (tenant_id key : Text) (no_nul : NoNul tenant_id)
    (keyed : build_cache_key client call.ciphertext_blob tenant_id ≡ ok key) where
  keep_plaintext-IsClean :
      (r : Result Error Bytes) (cache : Cache)
      → ((p : Bytes) → r ≡ ok p → ReleasedFor client tenant_id call.ciphertext_blob p)
      → IsReleased client cache
      → IsClean client tenant_id call.ciphertext_blob (keep_plaintext client call key r cache)
  unfolding keep_plaintext
  keep_plaintext-IsClean (err e) cache from h = (h, from)
  keep_plaintext-IsClean (ok p) cache from h = (
    store_cache_entry-IsReleased client call.stored_at call.purged_at key p cache
        (λ expiry. record {
          tenant_id = tenant_id;
          ciphertext_blob = call.ciphertext_blob;
          no_nul = no_nul;
          cached_under = keyed;
          released = from p refl;
        })
        h,
    from,
  )

  answer_or_request-IsClean :
      (r : Option Bytes × Cache)
      → IsReleased client r.1
      → ((p : Bytes) → r.0 ≡ some p → ReleasedFor client tenant_id call.ciphertext_blob p)
      → IsClean client tenant_id call.ciphertext_blob
          (answer_or_request client call tenant_id key r)
  unfolding answer_or_request
  answer_or_request-IsClean (some p, cache) h from = (h, λ q e. from q (cc))
  answer_or_request-IsClean (none, cache) h from =
      keep_plaintext-IsClean _ cache
        (request_plaintext-ReleasedFor client call.ciphertext_blob tenant_id call.user_data
          call.nonce)
        h

  of_entry :
      (e : CacheEntry)
      → CollisionFree client
      → Released client (key, e)
      → ReleasedFor client tenant_id call.ciphertext_blob e.plaintext
  of_entry e free r =
      let (s, b) =
        build_cache_key-injective client r.tenant_id tenant_id r.ciphertext_blob
          call.ciphertext_blob key free r.no_nul no_nul r.cached_under keyed in
      subst (λ t. ReleasedFor client t call.ciphertext_blob e.plaintext) s
        (subst (λ c. ReleasedFor client r.tenant_id c e.plaintext) b r.released)

  pub get_cached-IsClean :
      (now : ℕ) (cache : Cache)
      → CollisionFree client
      → IsReleased client cache
      → IsReleased client (get_cached now key cache).1
        × ((p : Bytes)
            → (get_cached now key cache).0 ≡ some p
            → ReleasedFor client tenant_id call.ciphertext_blob p)
  unfolding get_cached
  get_cached-IsClean now cache free h =
      let live = purge_expired now cache in
      let clean = purge_expired-IsReleased client now cache h in
      elim (Option-cases (OrderedDict.get key live)) [
        | inl e ↦ rw (e, get_cached) (clean, λ p q. cc)
        | inr (x, e) ↦
            rw (e, get_cached)
              (
                All-move_to_end (Released client) key live clean,
                λ p q.
                    let same : x.plaintext ≡ p = cc in
                    subst (ReleasedFor client tenant_id call.ciphertext_blob) same
                      (of_entry x free (All-get (Released client) key x live clean e)),
              )
      ]

  lookup_or_request-IsClean :
      (cache : Cache)
      → CollisionFree client
      → IsReleased client cache
      → IsClean client tenant_id call.ciphertext_blob
          (lookup_or_request client call tenant_id key cache)
  unfolding lookup_or_request
  lookup_or_request-IsClean cache free h =
      let (clean, from) = get_cached-IsClean call.looked_up_at cache free h in
      if-elim (IsClean client tenant_id call.ciphertext_blob) call.force_refresh _ _
        (λ _. answer_or_request-IsClean (none, cache) h (λ p e. cc))
        (λ _. answer_or_request-IsClean (get_cached call.looked_up_at key cache) clean from)

pub keyed_of_prepare :
    (client : Client) (call : Call) (key : Text)
    → prepare client call ≡ ok key
    → build_cache_key client call.ciphertext_blob (strip call.tenant_id) ≡ ok key
unfolding prepare
keyed_of_prepare client call key e = ground arith

-- With a hash that has no collisions and a tenant without a NUL, over a cache whose plaintexts were
-- all released for the tenant and the ciphertext of their keys: whether the call returns or raises,
-- the cache stays so, and a plaintext that it returns, cached or not, is one that the proxy released
-- for a request with the caller's own tenant and ciphertext.
pub decrypt_data_key-IsClean :
    (client : Client) (call : Call) (cache : Cache)
    → CollisionFree client
    → NoNul (strip call.tenant_id)
    → IsReleased client cache
    → IsClean client
        (strip call.tenant_id)
        call.ciphertext_blob
        (decrypt_data_key client call cache)
unfolding decrypt_data_key
decrypt_data_key-IsClean client call cache free no_nul h =
    elim (Result-cases (prepare client call)) [
      | inl (key, e) ↦
          rw (e, decrypt_data_key)
            (lookup_or_request-IsClean client call (strip call.tenant_id) key no_nul
              (keyed_of_prepare client call key e) cache free h)
      | inr (e, failed) ↦ rw (failed, decrypt_data_key) (h, λ p q. cc)
    ]
