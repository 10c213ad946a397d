-- ===== src/KmsClient/Cache.antt =====
-- The cache of data keys: its invariant, and what a purge and a store do to each lookup.
use confidential_ml_feature.Prelude.{
  ℕ, ◌≤◌, ◌≡◌, refl, List, [], ◌∷◌, Bool, true, false, Option, none, some, Text, Bytes, arith,
  length, ◌=ₜ◌, =ₜ_iff, if◌then◌else◌, Option-cases, inl, inr,
}
use confidential_ml_feature.OrderedDict
use confidential_ml_feature.OrderedDict.Laws.{Distinct, get-remove, length-evict-le}
use confidential_ml_feature.OrderedDict.Recency.{
  Distinct-move_to_end, length-move_to_end-le, move_to_end-insert, get-remove_self, Distinct-remove,
  Distinct-snoc, Distinct-evict, length-remove-le,
}
use confidential_ml_feature.KmsClient.{
  CacheEntry, Cache, Client, is_expired, expired_keys, pop_all, purge_expired, get_cached,
  store_cache_entry,
}

abbrev member : Text → List Text → Bool
member k [] = false
member k (j ∷ ks) = if j =ₜ k then true else member k ks

get-pop_all :
    (k : Text) (ks : List Text) (cache : Cache)
    → OrderedDict.get k (pop_all ks cache) ≡ (if member k ks then none else OrderedDict.get k cache)
unfolding pop_all
get-pop_all k [] cache = refl
get-pop_all k (j ∷ ks) cache =
    ground (arith, get-pop_all k ks (OrderedDict.remove j cache), get-remove j k cache)

Distinct-pop_all : (ks : List Text) (cache : Cache) → Distinct cache → Distinct (pop_all ks cache)
unfolding pop_all
Distinct-pop_all [] cache h = h
Distinct-pop_all (k ∷ ks) cache h =
    Distinct-pop_all ks (OrderedDict.remove k cache) (Distinct-remove k cache h)

length-pop_all-le : (ks : List Text) (cache : Cache) → length (pop_all ks cache) ≤ length cache
unfolding pop_all
length-pop_all-le [] cache = omega arith
length-pop_all-le (k ∷ ks) cache =
    omega (arith, length-pop_all-le ks (OrderedDict.remove k cache), length-remove-le k cache)

-- An entry as long as it has not expired.
abbrev pub live : ℕ → Option CacheEntry → Option CacheEntry
live now none = none
live now (some e) = if is_expired now e then none else some e

abbrev expired? : ℕ → Option CacheEntry → Bool
expired? now none = false
expired? now (some e) = is_expired now e

member-expired_keys :
    (now : ℕ) (k : Text) (cache : Cache)
    → Distinct cache
    → member k (expired_keys now cache) ≡ expired? now (OrderedDict.get k cache)
unfolding expired_keys OrderedDict.get
member-expired_keys now k [] h = refl
member-expired_keys now k ((j, e) ∷ cache) h =
    ground (arith, member-expired_keys now k cache h.1, =ₜ_iff j k)

-- In a cache with distinct keys, a lookup after a purge finds what it found before, unless that has
-- expired.
pub get-purge_expired :
    (now : ℕ) (k : Text) (cache : Cache)
    → Distinct cache
    → OrderedDict.get k (purge_expired now cache) ≡ live now (OrderedDict.get k cache)
unfolding purge_expired
get-purge_expired now k cache h =
    ground (arith, get-pop_all k (expired_keys now cache) cache, member-expired_keys now k cache h)

pub Distinct-purge_expired :
    (now : ℕ) (cache : Cache) → Distinct cache → Distinct (purge_expired now cache)
unfolding purge_expired
Distinct-purge_expired now cache h = Distinct-pop_all (expired_keys now cache) cache h

-- The cache's keys are distinct, and it is within its size.
pub record IsValid (client : Client) (cache : Cache) : Type 0 where
  pub distinct : Distinct cache
  pub bounded : length cache ≤ client.max_cache_size

pub purge_expired-IsValid :
    (client : Client) (now : ℕ) (cache : Cache)
    → IsValid client cache
    → IsValid client (purge_expired now cache)
unfolding purge_expired
purge_expired-IsValid client now cache v = record {
  distinct = Distinct-pop_all (expired_keys now cache) cache v.distinct;
  bounded = omega (arith, length-pop_all-le (expired_keys now cache) cache);
}

move_to_end-IsValid :
    (client : Client) (k : Text) (cache : Cache)
    → IsValid client cache
    → IsValid client (OrderedDict.move_to_end k cache)
move_to_end-IsValid client k cache v = record {
  distinct = Distinct-move_to_end k cache v.distinct;
  bounded = omega (arith, length-move_to_end-le k cache);
}

pub get_cached-IsValid :
    (client : Client) (now : ℕ) (k : Text) (cache : Cache)
    → IsValid client cache
    → IsValid client (get_cached now k cache).1
unfolding get_cached
get_cached-IsValid client now k cache v =
    elim (Option-cases (OrderedDict.get k (purge_expired now cache))) [
      | inl e ↦ rw (e, get_cached) (purge_expired-IsValid client now cache v)
      | inr (x, e) ↦
          rw (e, get_cached)
            (move_to_end-IsValid client k _ (purge_expired-IsValid client now cache v))
    ]

pub store_cache_entry-IsValid :
    (client : Client) (t₁ t₂ : ℕ) (k : Text) (p : Bytes) (cache : Cache)
    → IsValid client cache
    → IsValid client (store_cache_entry client t₁ t₂ k p cache)
unfolding store_cache_entry
store_cache_entry-IsValid client t₁ t₂ k p cache v = record {
  distinct = Distinct-evict client.max_cache_size _ (
      rw move_to_end-insert (
        Distinct-snoc k _ _ (Distinct-remove k _ (Distinct-purge_expired t₂ cache v.distinct))
          (get-remove_self k _)));
  bounded = length-evict-le client.max_cache_size _;
}
