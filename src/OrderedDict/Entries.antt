-- ===== src/OrderedDict/Entries.antt =====
-- A property of every entry, under each operation on an ordered dictionary.
use mathlib.Core.Path.{subst}
use confidential_ml_feature.Prelude.{
  ℕ, ◌≡◌, List, [], ◌∷◌, some, length, All, All-append, arith, ltb, ◌=ₜ◌, =ₜ-sound, if◌then◌else◌,
  Bool, true, false, Bool-cases, Option-cases, inl, inr,
}
use confidential_ml_feature.OrderedDict.{get, remove, insert, move_to_end, evict}

All-if {ℓ κ} :
    {A : Type ℓ} (P : A → Type κ) (b : Bool) (xs ys : List A)
    → All P xs
    → All P ys
    → All P (if b then xs else ys)
All-if P true xs ys h k = h
All-if P false xs ys h k = k

module _ {ℓ κ} {V : Type ℓ} (P : List ℕ × V → Type κ) where
  pub All-get : (k : List ℕ) (v : V) (d : List (List ℕ × V)) → All P d → get k d ≡ some v → P (k, v)
  unfolding get
  All-get k v [] h e = absurd (cc)
  All-get k v ((j, w) ∷ d) h e = elim (Bool-cases (j =ₜ k)) [
    | inl same ↦
        let here : some w ≡ some v = ground (arith, same, e) in
        let at : (j, w) ≡ (k, v) = ground (arith, =ₜ-sound j k same) in subst P at h.0
    | inr other ↦ All-get k v d h.1 (ground (arith, other, e))
  ]

  pub All-remove : (k : List ℕ) (d : List (List ℕ × V)) → All P d → All P (remove k d)
  unfolding remove
  All-remove k [] h = tt
  All-remove k ((j, w) ∷ d) h =
      All-if P (j =ₜ k) (remove k d) ((j, w) ∷ remove k d) (All-remove k d h.1)
        (h.0, All-remove k d h.1)

  pub All-insert :
      (k : List ℕ) (v : V) (d : List (List ℕ × V)) → P (k, v) → All P d → All P (insert k v d)
  unfolding insert
  All-insert k v [] p h = (p, tt)
  All-insert k v ((j, w) ∷ d) p h =
      All-if P (j =ₜ k) ((k, v) ∷ d) ((j, w) ∷ insert k v d) (p, h.1) (h.0, All-insert k v d p h.1)

  pub All-move_to_end : (k : List ℕ) (d : List (List ℕ × V)) → All P d → All P (move_to_end k d)
  unfolding move_to_end
  All-move_to_end k d h = elim (Option-cases (get k d)) [
    | inl e ↦ rw (e, move_to_end) h
    | inr (v, e) ↦
        rw (e, move_to_end)
          (All-append P (remove k d) ((k, v) ∷ []) (All-remove k d h) (All-get k v d h e, tt))
  ]

  pub All-evict : (size : ℕ) (d : List (List ℕ × V)) → All P d → All P (evict size d)
  unfolding evict
  All-evict size [] h = tt
  All-evict size (e ∷ d) h =
      All-if P (ltb size (length (e ∷ d))) (evict size d) (e ∷ d) (All-evict size d h.1) h
