-- ===== src/KmsClient/CacheKey.antt =====
-- The cache key of a tenant and a ciphertext, and when two of them are the same.
use confidential_ml_feature.Prelude.{
  ℕ, ◌≡◌, ◌≢◌, refl, ◌∙◌, sym, List, [], ◌∷◌, ◌++◌, Option, none, some, Text, Bytes, arith, All,
  Result, ok, err, Option-cases, inl, inr, append_assoc,
}
use confidential_ml_feature.Python.Utf8
use confidential_ml_feature.Python.Utf8.Parts.{
  join_encoded, encode-NoNul, encode-append, encode-cons_nul,
}
use confidential_ml_feature.Python.Utf8.RoundTrip.{decode-encode}
use confidential_ml_feature.KmsClient.{unicode_encode, Error, Client, build_cache_key}

-- No code point of the text, or no byte, is 0.
abbrev pub NoNul : List ℕ → Type 0
NoNul s = All (λ c. c ≢ 0) s

split_at_nul :
    (xs ys bs cs : List ℕ)
    → NoNul xs
    → NoNul ys
    → xs ++ 0 ∷ bs ≡ ys ++ 0 ∷ cs
    → (xs ≡ ys) × (bs ≡ cs)
split_at_nul [] [] bs cs hx hy e = (refl, cc)
split_at_nul [] (y ∷ ys) bs cs hx hy e = ground arith
split_at_nul (x ∷ xs) [] bs cs hx hy e = ground arith
split_at_nul (x ∷ xs) (y ∷ ys) bs cs hx hy e =
    let tails : xs ++ 0 ∷ bs ≡ ys ++ 0 ∷ cs = cc in
    let (p, q) = split_at_nul xs ys bs cs hx.1 hy.1 tails in (cc, q)

-- No two tenants without a NUL, or ciphertexts, share the bytes that the cache key hashes.
pub key_bytes-injective :
    (s t : Text) (xs ys bs cs : Bytes)
    → NoNul s
    → NoNul t
    → Utf8.encode s ≡ some xs
    → Utf8.encode t ≡ some ys
    → xs ++ 0 ∷ bs ≡ ys ++ 0 ∷ cs
    → (s ≡ t) × (bs ≡ cs)
key_bytes-injective s t xs ys bs cs hs ht es et e =
    let (p, q) = split_at_nul xs ys bs cs (encode-NoNul s xs hs es) (encode-NoNul t ys ht et) e in
    (cc (decode-encode s xs es, decode-encode t ys et), q)

build_cache_key-eq-ok :
    (client : Client) (blob : Bytes) (tenant_id key : Text)
    → build_cache_key client blob tenant_id ≡ ok key
    → (b : Bytes) × (Utf8.encode tenant_id ≡ some b) × (client.sha256_hex (b ++ 0 ∷ blob) ≡ key)
unfolding build_cache_key
build_cache_key-eq-ok client blob tenant_id key e = elim (Option-cases (Utf8.encode tenant_id)) [
  | inl bad ↦ absurd (ground (arith, bad))
  | inr (b, good) ↦ (b, good, ground (arith, good))
]

-- The hash tells any two byte strings apart.
abbrev pub CollisionFree : Client → Type 0
CollisionFree client = (xs ys : Bytes) → client.sha256_hex xs ≡ client.sha256_hex ys → xs ≡ ys

-- With a hash that has no collisions: two tenants without a NUL, each with a ciphertext, that have
-- the same cache key are the same tenant with the same ciphertext.
pub build_cache_key-injective :
    (client : Client) (s t : Text) (bs cs : Bytes) (key : Text)
    → CollisionFree client
    → NoNul s
    → NoNul t
    → build_cache_key client bs s ≡ ok key
    → build_cache_key client cs t ≡ ok key
    → (s ≡ t) × (bs ≡ cs)
build_cache_key-injective client s t bs cs key free hs ht e f =
    let (xs, es, ke) = build_cache_key-eq-ok client bs s key e in
    let (ys, et, kf) = build_cache_key-eq-ok client cs t key f in
    key_bytes-injective s t xs ys bs cs hs ht es et (free _ _ (ke ∙ sym kf))

abbrev key_of_encoded : Client → Bytes → Option Bytes → Result Error Text
key_of_encoded client blob none = err unicode_encode
key_of_encoded client blob (some b) = ok (client.sha256_hex (b ++ 0 ∷ blob))

build_cache_key_lem :
    (client : Client) (blob : Bytes) (t : Text)
    → build_cache_key client blob t ≡ key_of_encoded client blob (Utf8.encode t)
unfolding build_cache_key
build_cache_key_lem client blob t = ground arith

-- Whatever the hash: where `u` has the UTF-8 bytes `b`, the tenant made of `t`, a NUL and `u` has for
-- any ciphertext the same cache key as the tenant `t` for `b`, a NUL and that ciphertext.
build_cache_key-nul :
    (client : Client) (t u : Text) (b blob : Bytes)
    → Utf8.encode u ≡ some b
    → build_cache_key client blob (t ++ 0 ∷ u) ≡ build_cache_key client (b ++ 0 ∷ blob) t
build_cache_key-nul client t u b blob e =
    rw
      (
        build_cache_key_lem client blob (t ++ 0 ∷ u),
        build_cache_key_lem client (b ++ 0 ∷ blob) t,
        encode-append t (0 ∷ u),
        encode-cons_nul u b e,
      )
      (go (Utf8.encode t))
  where
    go :
        (o : Option Bytes)
        → key_of_encoded client blob (join_encoded o (some (0 ∷ b)))
          ≡ key_of_encoded client (b ++ 0 ∷ blob) o
    go none = refl
    go (some a) = rw append_assoc
