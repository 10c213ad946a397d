-- ===== src/KmsClient/Threads/Isolated.antt =====
-- enclave/kms_client.py: whose plaintext a thread gets, in every interleaving.
use confidential_ml_feature.Prelude.{
  Ensures, ℕ, ◌≡◌, arith, refl, Option, none, some, Text, Bytes, Result, ok, err, if-elim,
}
use confidential_ml_feature.Python.Strip.{strip}
use confidential_ml_feature.Threads.{System, Reach, IsKept, reach-Holds}
use confidential_ml_feature.KmsClient.{
  Error, Cache, Client, Call, prepare, build_cache_key, cache_size, clear_cache,
}
use confidential_ml_feature.KmsClient.Cache.{
  IsValid, purge_expired-IsValid, get_cached-IsValid, store_cache_entry-IsValid,
}
use confidential_ml_feature.KmsClient.CacheKey.{NoNul, CollisionFree}
use confidential_ml_feature.KmsClient.Isolation.{
  ReleasedFor, IsReleased, purge_expired-IsReleased, store_cache_entry-IsReleased,
  request_plaintext-ReleasedFor, get_cached-IsClean, keyed_of_prepare,
}
use confidential_ml_feature.KmsClient.Threads.{
  Work, idle, asked, looking, requesting, keeping, answered, prepared, looked_up, requested,
  continue, Move, make, clear, size, finish, go_on,
}

-- The cache is valid, and every plaintext in it was released for the tenant and ciphertext of its key.
pub record IsIsolated (client : Client) (cache : Cache) : Type 0 where
  pub valid : IsValid client cache
  pub released : IsReleased client cache

module _ (client : Client) where
  -- A plaintext was released for the call's own tenant and ciphertext.
  abbrev pub IsForCall : Call → Bytes → Type 0
  IsForCall call p = ReleasedFor client (strip call.tenant_id) call.ciphertext_blob p

  -- The key is that of the call's own tenant and ciphertext.
  pub record IsKeyed (call : Call) (key : Text) : Type 0 where
    pub no_nul : NoNul (strip call.tenant_id)
    pub keyed : build_cache_key client call.ciphertext_blob (strip call.tenant_id) ≡ ok key

  -- What a thread has so far is its own call's.
  abbrev pub Carries : Work → Type 0
  Carries idle = Unit {0}
  Carries (asked call) = NoNul (strip call.tenant_id)
  Carries (looking call key) = IsKeyed call key
  Carries (requesting call key) = IsKeyed call key
  Carries (keeping call key p) = IsKeyed call key × IsForCall call p
  Carries (answered call r) = Ensures (IsForCall call) r

  prepared-Carries :
      (call : Call) (r : Result Error Text)
      → prepare client call ≡ r
      → NoNul (strip call.tenant_id)
      → Carries (prepared call r)
  unfolding prepared
  prepared-Carries call (err e) h n = tt
  prepared-Carries call (ok key) h n =
      let k : IsKeyed call key = record {
        no_nul = n;
        keyed = keyed_of_prepare client call key h;
      } in
      if-elim Carries call.force_refresh (requesting call key) (looking call key) (λ _. k) (λ _. k)

  looked_up-Carries :
      (call : Call) (key : Text) (r : Option Bytes)
      → IsKeyed call key
      → ((p : Bytes) → r ≡ some p → IsForCall call p)
      → Carries (looked_up call key r)
  unfolding looked_up
  looked_up-Carries call key (some p) k from = from p refl
  looked_up-Carries call key none k from = k

  requested-Carries :
      (call : Call) (key : Text) (r : Result Error Bytes)
      → IsKeyed call key
      → ((p : Bytes) → r ≡ ok p → IsForCall call p)
      → Carries (requested call key r)
  unfolding requested
  requested-Carries call key (ok p) k from = (k, from p refl)
  requested-Carries call key (err e) k from = tt

  continue-Carries :
      (w : Work) (cache : Cache)
      → CollisionFree client
      → IsIsolated client cache
      → Carries w
      → IsIsolated client (continue client w cache).1 × Carries (continue client w cache).0
  unfolding continue
  continue-Carries idle cache free v c = (v, tt)
  continue-Carries (asked call) cache free v c =
      (v, prepared-Carries call (prepare client call) refl c)
  continue-Carries (looking call key) cache free v c =
      let (clean, from) =
        get_cached-IsClean client call (strip call.tenant_id) key c.no_nul c.keyed call.looked_up_at
          cache free v.released in
      (
        record {
          valid = get_cached-IsValid client call.looked_up_at key cache v.valid;
          released = clean;
        },
        looked_up-Carries call key _ c from,
      )
  continue-Carries (requesting call key) cache free v c = (
    v,
    requested-Carries call key _ c (
        request_plaintext-ReleasedFor client call.ciphertext_blob (strip call.tenant_id)
          call.user_data call.nonce),
  )
  continue-Carries (keeping call key p) cache free v (k, h) = (
    record {
      valid = store_cache_entry-IsValid client call.stored_at call.purged_at key p cache v.valid;
      released =
          store_cache_entry-IsReleased client call.stored_at call.purged_at key p cache
            (λ expiry. record {
              tenant_id = strip call.tenant_id;
              ciphertext_blob = call.ciphertext_blob;
              no_nul = k.no_nul;
              cached_under = k.keyed;
              released = h;
            })
            v.released;
    },
    h,
  )
  continue-Carries (answered call r) cache free v c = (v, c)

  module _ (Makes : Call → Type 0) where
    clear-IsIsolated : (cache : Cache) → IsIsolated client (clear_cache cache)
    clear-IsIsolated cache = record {
      valid = record { distinct = tt; bounded = omega arith };
      released = tt;
    }

    cache_size-IsIsolated :
        (now : ℕ) (cache : Cache)
        → IsIsolated client cache
        → IsIsolated client (cache_size now cache).1
    unfolding cache_size
    cache_size-IsIsolated now cache v = record {
      valid = purge_expired-IsValid client now cache v.valid;
      released = purge_expired-IsReleased client now cache v.released;
    }

    move-Carries :
        (w : Work) (cache : Cache) (w' : Work) (cache' : Cache)
        → Move client Makes w cache w' cache'
        → CollisionFree client
        → ((call : Call) → Makes call → NoNul (strip call.tenant_id))
        → IsIsolated client cache
        → Carries w
        → IsIsolated client cache' × Carries w'
    move-Carries w cache w' cache' (make call m) free plain v c = (v, plain call m)
    move-Carries w cache w' cache' clear free plain v c = (clear-IsIsolated cache, tt)
    move-Carries w cache w' cache' (size now) free plain v c =
        (cache_size-IsIsolated now cache v, tt)
    move-Carries w cache w' cache' (finish call r) free plain v c = (v, tt)
    move-Carries w cache w' cache' (go_on _) free plain v c = continue-Carries w cache free v c

    abbrev Any : Work → Work → Type 0
    Any v w = Unit {0}

    move-IsKept :
        CollisionFree client
        → ((call : Call) → Makes call → NoNul (strip call.tenant_id))
        → IsKept (Move client Makes) (IsIsolated client) (λ _. Carries) Any
    move-IsKept free plain = record {
      apart_sym = λ _. tt;
      own = λ {w} {w'} {m} {m'} move v c. move-Carries w m w' m' move free plain v c;
      other = λ _ _ _ c _. (c, tt);
    }

    -- With a hash that has no collisions and calls whose tenants have no NUL, whatever threads do with
    -- one client, in any order, from a cache that is valid and released for its keys: in every state
    -- that they reach, the cache is so, and what a thread holds is its own call's: the cache key is
    -- that of the call's tenant and ciphertext, and a plaintext, be it still to be stored or the
    -- answer, was released by the proxy for them.
    pub reach-IsIsolated :
        (cache : Cache) (s : System Cache Work) (i : ℕ)
        → CollisionFree client
        → ((other : Call) → Makes other → NoNul (strip other.tenant_id))
        → IsIsolated client cache
        → Reach (Move client Makes) (record { shared = cache; work = λ _. idle }) s
        → IsIsolated client s.shared × Carries (s.work i)
    reach-IsIsolated cache s i free plain v r =
        let kept =
          reach-Holds (Move client Makes) (IsIsolated client) (λ _. Carries) Any
            (move-IsKept free plain) (record { state = v; each = λ _. tt; two = λ _ _ _. tt }) r in
        (kept.state, kept.each i)
