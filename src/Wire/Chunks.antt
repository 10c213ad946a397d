-- ===== src/Wire/Chunks.antt =====
-- Streams by the bytes that they carry, whatever the pieces in which these arrive.
use mathlib.Core.Path.{subst}
use confidential_ml_feature.Prelude.{
  ℕ, zero, suc, ◌+◌, ◌-◌, ◌≤◌, ◌<◌, ◌≡◌, refl, sym, ap, ◌∙◌, inl, inr, [], ◌∷◌, ◌++◌, append_assoc,
  append-nil, arith, ltb, Bool-cases, if_false, Bytes, length, length-append, take-length-append,
  drop-length-append,
}
use confidential_ml_feature.Wire.{ended, collect, Stream, chunk, failed, put_back, Received, full}

-- The stream carries these bytes, and no error stands before their end.
unfoldable pub Carries : Stream → Bytes → Type 0
Carries [] bytes = bytes ≡ []
Carries (failed e ∷ s) bytes = ⊥
Carries (chunk b bs ∷ s) bytes = (rest : Bytes) × (bytes ≡ b ∷ (bs ++ rest)) × Carries s rest

put_back-Carries :
    (bs : Bytes) (s : Stream) (rest : Bytes) → Carries s rest → Carries (put_back bs s) (bs ++ rest)
unfolding Carries
put_back-Carries [] s rest c = c
put_back-Carries (b ∷ bs) s rest c = (rest, refl, c)

-- What the loop makes of a stream with enough bytes.
pub record Collects (r : Received × Stream) (bytes rest : Bytes) : Type 0 where
  pub got : r.0 ≡ full bytes
  pub left : Carries r.1 rest

split_longer :
    (xs ys us vs : Bytes)
    → xs ++ us ≡ ys ++ vs
    → length ys ≤ length xs
    → (m : Bytes) × (xs ≡ ys ++ m) × (vs ≡ m ++ us)
split_longer xs [] us vs e h = (xs, refl, sym e)
split_longer [] (y ∷ ys) us vs e h = absurd (omega (arith, h))
split_longer (x ∷ xs) (y ∷ ys) us vs e h =
    let tails : xs ++ us ≡ ys ++ vs = cc in
    let (m, p, q) = split_longer xs ys us vs tails (omega (arith, h)) in (m, cc, q)

-- A piece that ends before the bytes wanted do.
collect_part :
    (b : ℕ) (bs : Bytes) (s : Stream) (missing : ℕ) (buffer : Bytes)
    → length bs < missing
    → collect (chunk b bs ∷ s) (suc missing) buffer
      ≡ collect s (missing - length bs) (buffer ++ b ∷ bs)
unfolding collect
collect_part b bs s missing buffer h = ground arith

-- A piece that holds what is wanted, and more.
collect_last :
    (b : ℕ) (bs more : Bytes) (s : Stream) (buffer : Bytes)
    → collect (chunk b (bs ++ more) ∷ s) (suc (length bs)) buffer
      ≡ (full (buffer ++ b ∷ bs), put_back more s)
unfolding collect
collect_last b bs more s buffer =
    if_false (ltb (length (bs ++ more)) (length bs)) _ _ (ground (arith, length-append bs more))
    ∙ rw (take-length-append, drop-length-append) refl

collect_none : (s : Stream) (buffer : Bytes) → collect s 0 buffer ≡ (full buffer, s)
unfolding collect
collect_none [] buffer = refl
collect_none (a ∷ s) buffer = refl

-- The two cases of a piece, over what the loop does with the pieces after it.
collect-chunk :
    (b : ℕ) (bs : Bytes) (s : Stream) (ws rest r buffer : Bytes)
    → ((ws' : Bytes)
        → Carries s (ws' ++ rest)
        → Collects (collect s (length ws') (buffer ++ b ∷ bs)) ((buffer ++ b ∷ bs) ++ ws') rest)
    → ws ++ rest ≡ bs ++ r
    → Carries s r
    → Collects (collect (chunk b bs ∷ s) (suc (length ws)) buffer) (buffer ++ b ∷ ws) rest
collect-chunk b bs s ws rest r buffer later e c = elim (Bool-cases (ltb (length bs) (length ws))) [
  | inl part ↦
      let (m, p, q) = split_longer ws bs rest r e (ground (arith, part)) in
      let size : length ws - length bs ≡ length m =
        omega (arith, length-append bs m, ap length p) in
      let after = later m (subst (Carries s) q c) in
      let step =
        collect_part b bs s (length ws) buffer (ground (arith, part))
        ∙ ap (λ n. collect s n (buffer ++ b ∷ bs)) size in
      record {
        got = ap (λ (x : Received × Stream). x.0) step ∙ after.got ∙ rw (p, append_assoc) refl;
        left = subst (λ (x : Received × Stream). Carries x.1 rest) (sym step) after.left;
      }
  | inr whole ↦
      let (m, p, q) = split_longer bs ws r rest (sym e) (ground (arith, whole)) in
      let step =
        ap (λ x. collect (chunk b x ∷ s) (suc (length ws)) buffer) p
        ∙ collect_last b ws m s buffer in
      record {
        got = ap (λ (x : Received × Stream). x.0) step;
        left =
            subst (λ (x : Received × Stream). Carries x.1 rest) (sym step)
              (subst (Carries (put_back m s)) (sym q) (put_back-Carries m s r c));
      }
]

-- However the bytes are cut into pieces, the loop returns those asked for and leaves the others.
pub collect-Carries :
    (s : Stream) (wanted rest buffer : Bytes)
    → Carries s (wanted ++ rest)
    → Collects (collect s (length wanted) buffer) (buffer ++ wanted) rest
unfolding Carries
collect-Carries s [] rest buffer c = rw (collect_none, append-nil) (record { got = refl; left = c })
collect-Carries [] (w ∷ ws) rest buffer c = absurd (ground (arith, c))
collect-Carries (failed e ∷ s) (w ∷ ws) rest buffer c = absurd c
collect-Carries (chunk b bs ∷ s) (w ∷ ws) rest buffer (r, e, c) =
    let heads : b ≡ w = cc in
    let tails : ws ++ rest ≡ bs ++ r = cc in
    let later = λ (ws' : Bytes). collect-Carries s ws' rest (buffer ++ b ∷ bs) in
    rw (← heads) (collect-chunk b bs s ws rest r buffer later tails c)

collect_nothing : (n : ℕ) (buffer : Bytes) → collect [] (suc n) buffer ≡ (ended buffer, [])
unfolding collect
collect_nothing n buffer = refl

-- The same, for a number of bytes asked for.
pub collect_bytes :
    (s : Stream) (n : ℕ) (wanted rest : Bytes)
    → length wanted ≡ n
    → Carries s (wanted ++ rest)
    → Collects (collect s n []) wanted rest
collect_bytes s n wanted rest size c =
    subst (λ k. Collects (collect s k []) wanted rest) size (collect-Carries s wanted rest [] c)

-- A stream that ends before the bytes asked for: the loop ends with all that there is.
pub collect_short :
    (s : Stream) (n : ℕ) (bytes buffer : Bytes)
    → Carries s bytes
    → length bytes < n
    → collect s n buffer ≡ (ended (buffer ++ bytes), [])
unfolding Carries
collect_short s zero bytes buffer c h = absurd (omega (arith, h))
collect_short [] (suc n) bytes buffer c h = rw (c, append-nil) (collect_nothing n buffer)
collect_short (failed e ∷ s) (suc n) bytes buffer c h = absurd c
collect_short (chunk b bs ∷ s) (suc n) bytes buffer (r, e, c) h =
    let size : length bytes ≡ suc (length bs + length r) =
      omega (arith, ap length e, length-append bs r) in
    collect_part b bs s n buffer (omega arith)
    ∙ collect_short s (n - length bs) r (buffer ++ b ∷ bs) c (omega arith)
    ∙ rw (e, append_assoc) refl
