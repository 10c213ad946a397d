-- ===== src/Tests/Keys.antt =====
-- A key client over a proxy that echoes the ciphertext, with the identity for a hash.
use confidential_ml_feature.Prelude.{
  ◌≡◌, refl, [], ◌∷◌, ◌++◌, none, some, true, false, Bytes, Text, arith, ok,
}
use confidential_ml_feature.Python.Codes.{codes}
use confidential_ml_feature.Python.Strip.{strip, lstrip}
use confidential_ml_feature.Python.Utf8
use confidential_ml_feature.OrderedDict
use confidential_ml_feature.KmsClient.{
  CacheEntry, Cache, Client, Call, Request, Reply, response, build_cache_key, request_plaintext,
  receive, build_request, build_user_data, extract_plaintext, prepare, decrypt_data_key,
}
use confidential_ml_feature.KmsClient.Cache.{IsValid, live}
use confidential_ml_feature.KmsClient.Expiry.{fetch, answer, decrypt_data_key-answer}
use confidential_ml_feature.KmsClient.CacheKey.{NoNul, CollisionFree}
use confidential_ml_feature.Threads.{System, Reach, start, pick, assign}
use confidential_ml_feature.KmsClient.Threads.{
  Work, Move, idle, asked, answered, make, go_on, continue, prepared, requested,
}
use confidential_ml_feature.KmsClient.Threads.Isolated.{IsIsolated, Carries, reach-IsIsolated}
use confidential_ml_feature.KmsClient.Isolation.{IsClean, decrypt_data_key-IsClean}

abbrev echo : Request → Reply
echo r = response (record {
  plaintext = some r.ciphertext_blob;
  plaintext_lower = none;
  ciphertext_for_recipient = none;
})

abbrev client : Client
client = record {
  key_id = codes "key";
  cache_ttl = 60;
  max_cache_size = 2;
  public_key = none;
  attestation_provider = λ key user_data nonce. ok (7 ∷ []);
  transport = echo;
  unwrap = none;
  sha256_hex = λ b. b;
}

abbrev ciphertext : Bytes
ciphertext = 1 ∷ 2 ∷ []

abbrev refresh : Call
refresh = record {
  ciphertext_blob = ciphertext;
  tenant_id = codes "ab";
  user_data = none;
  nonce = none;
  force_refresh = true;
  looked_up_at = 0;
  stored_at = 1;
  purged_at = 2;
}

abbrev later : Call
later = record refresh { force_refresh = false; looked_up_at = 40 }

abbrev key : Text
key = codes "ab" ++ 0 ∷ ciphertext

abbrev stale : CacheEntry
stale = record { plaintext = 9 ∷ []; expires_at = 30 }

abbrev cache : Cache
cache = (codes "stale", stale) ∷ []

cache-IsValid : IsValid client cache
cache-IsValid = record { distinct = (unfold OrderedDict.get in refl, tt); bounded = omega arith }

key_of_refresh : prepare client refresh ≡ ok key
unfolding prepare build_cache_key strip lstrip Utf8.encode
key_of_refresh = refl

key_of_later : prepare client later ≡ ok key
unfolding prepare build_cache_key strip lstrip Utf8.encode
key_of_later = refl

fetched : fetch client refresh ≡ ok ciphertext
unfolding request_plaintext receive extract_plaintext build_request build_user_data
fetched = refl

collision_free : CollisionFree client
collision_free = λ xs ys e. e

tenant-NoNul : NoNul (codes "ab")
tenant-NoNul = (λ e. cc, (λ e. cc, tt))

decrypt_data_key-IsClean_example :
    IsClean client (strip (codes "ab")) ciphertext (decrypt_data_key client later [])
decrypt_data_key-IsClean_example =
    decrypt_data_key-IsClean client later [] collision_free (unfold strip lstrip in tenant-NoNul) tt

decrypt_data_key-answer_example :
    (decrypt_data_key client later cache).0
    ≡ answer client later (live 40 (OrderedDict.get key cache))
decrypt_data_key-answer_example =
    decrypt_data_key-answer client later cache key cache-IsValid key_of_later

keyed : build_cache_key client ciphertext (codes "ab") ≡ ok key
unfolding build_cache_key Utf8.encode
keyed = refl

-- A call that fetches the key and stores it.
abbrev moved : System Cache Work → System Cache Work
moved s = record {
  shared = (continue client (s.work 0) s.shared).1;
  work = assign 0 (continue client (s.work 0) s.shared).0 s.work;
}

abbrev made : System Cache Work
made = record { shared = []; work = assign 0 (asked refresh) (λ _. idle) }

abbrev Plain : Call → Type 0
Plain call = NoNul (strip call.tenant_id)

refresh-Plain : Plain refresh
unfolding strip lstrip
refresh-Plain = tenant-NoNul

handled :
    Reach
      (Move client Plain)
      (record { shared = []; work = λ _. idle })
      (moved (moved (moved made)))
handled =
    let first = Reach.later start (pick 0 (make refresh refresh-Plain)) in
    Reach.later (Reach.later (Reach.later first (pick 0 (go_on _))) (pick 0 (go_on _)))
      (pick 0 (go_on _))

has_answered : (moved (moved (moved made))).work 0 ≡ answered refresh (ok ciphertext)
unfolding continue prepared requested prepare build_cache_key strip lstrip Utf8.encode
    request_plaintext receive extract_plaintext build_request build_user_data
has_answered = refl

reach-IsIsolated_example :
    IsIsolated client (moved (moved (moved made))).shared
    × Carries client ((moved (moved (moved made))).work 0)
reach-IsIsolated_example =
    reach-IsIsolated client Plain [] (moved (moved (moved made))) 0 collision_free (λ other h. h)
      (record { valid = record { distinct = tt; bounded = omega arith }; released = tt }) handled
