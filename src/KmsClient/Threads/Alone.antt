-- ===== src/KmsClient/Threads/Alone.antt =====
-- enclave/kms_client.py: a call of `decrypt_data_key` that is not interleaved with others.
use confidential_ml_feature.Prelude.{
  ℕ, zero, suc, ◌≡◌, refl, Option, none, some, Text, Bytes, Result, ok, err, Bool, true, false,
  if◌then◌else◌,
}
use confidential_ml_feature.Python.Strip.{strip}
use confidential_ml_feature.KmsClient.{
  Error, Cache, Client, Call, get_cached, keep_plaintext, answer_or_request, lookup_or_request,
  prepare, decrypt_data_key,
}
use confidential_ml_feature.KmsClient.Threads.{
  Work, asked, looking, requesting, answered, prepared, looked_up, requested, continue,
}

module _ (client : Client) where
  abbrev pub continues : ℕ → Work × Cache → Work × Cache
  continues zero r = r
  continues (suc n) r = continues n (continue client r.0 r.1)

  module _ (call : Call) where
    abbrev pub answer : Result Error Bytes × Cache → Work × Cache
    answer (r, cache) = (answered call r, cache)

    after_request :
        (n : ℕ) (key : Text) (r : Result Error Bytes) (cache : Cache)
        → continues (suc n) (requested call key r, cache)
          ≡ continues n (answer (keep_plaintext client call key r cache))
    unfolding requested keep_plaintext continue
    after_request n key (ok p) cache = refl
    after_request n key (err e) cache = refl

    after_lookup :
        (key : Text) (r : Option Bytes × Cache)
        → continues 2 (looked_up call key r.0, r.1)
          ≡ answer (answer_or_request client call (strip call.tenant_id) key r)
    unfolding looked_up answer_or_request continue
    after_lookup key (some p, cache) = refl
    after_lookup key (none, cache) = after_request 0 key _ cache

    after_checks :
        (fresh : Bool) (key : Text) (cache : Cache)
        → continues 3 ((if fresh then requesting call key else looking call key), cache)
          ≡ answer (
              if fresh
              then answer_or_request client call (strip call.tenant_id) key (none, cache)
              else answer_or_request client call
                  (strip call.tenant_id)
                  key
                  (get_cached call.looked_up_at key cache))
    unfolding continue answer_or_request keep_plaintext
    after_checks true key cache = after_request 1 key _ cache
    after_checks false key cache = after_lookup key (get_cached call.looked_up_at key cache)

    after_prepare :
        (r : Result Error Text) (cache : Cache)
        → prepare client call ≡ r
        → continues 3 (prepared call r, cache) ≡ answer (decrypt_data_key client call cache)
    unfolding prepared continue lookup_or_request decrypt_data_key
    after_prepare (err e) cache h = rw (h, decrypt_data_key) refl
    after_prepare (ok key) cache h =
        rw (h, decrypt_data_key) (after_checks call.force_refresh key cache)

    -- Four moves in a row answer a call as `decrypt_data_key` does, and leave the cache that it leaves.
    pub continues-decrypt_data_key :
        (cache : Cache)
        → continues 4 (asked call, cache) ≡ answer (decrypt_data_key client call cache)
    unfolding continue
    continues-decrypt_data_key cache = after_prepare (prepare client call) cache refl
