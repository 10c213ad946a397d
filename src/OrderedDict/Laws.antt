-- ===== src/OrderedDict/Laws.antt =====
-- Lookups after each change of an ordered dictionary, its distinct keys, and what eviction keeps.
use confidential_ml_feature.Prelude.{
  ℕ, ◌-◌, ◌≤◌, ◌≡◌, refl, List, [], ◌∷◌, ◌++◌, none, some, arith, length, drop, ltb, ◌=ₜ◌, =ₜ_iff,
  if◌then◌else◌, suc, Option-cases, Bool-cases, inl, inr,
}
use confidential_ml_feature.OrderedDict.{get, remove, insert, move_to_end, evict}

module _ {ℓ} {V : Type ℓ} where
  -- No key occurs twice.
  abbrev pub Distinct : List (List ℕ × V) → Type ℓ
  Distinct [] = Unit
  Distinct ((k, v) ∷ d) = (get k d ≡ none) × Distinct d

  pub get-append :
      (k : List ℕ) (d e : List (List ℕ × V))
      → get k (d ++ e) ≡ elim (get k d) [ none ↦ get k e | some v ↦ some v ]
  unfolding get
  get-append k [] e = refl
  get-append k ((j, v) ∷ d) e = ground (arith, get-append k d e)

  pub get-remove :
      (k j : List ℕ) (d : List (List ℕ × V))
      → get j (remove k d) ≡ (if k =ₜ j then none else get j d)
  unfolding get remove
  get-remove k j [] = ground arith
  get-remove k j ((i, v) ∷ d) = ground (arith, get-remove k j d, =ₜ_iff i k, =ₜ_iff i j, =ₜ_iff k j)

  pub get-insert :
      (k j : List ℕ) (v : V) (d : List (List ℕ × V))
      → get j (insert k v d) ≡ (if k =ₜ j then some v else get j d)
  unfolding get insert
  get-insert k j v [] = ground arith
  get-insert k j v ((i, w) ∷ d) =
      ground (arith, get-insert k j v d, =ₜ_iff i k, =ₜ_iff i j, =ₜ_iff k j)

  pub get-move_to_end : (k j : List ℕ) (d : List (List ℕ × V)) → get j (move_to_end k d) ≡ get j d
  unfolding move_to_end
  get-move_to_end k j d = elim (Option-cases (get k d)) [
    | inl e ↦ rw (e, move_to_end) refl
    | inr (v, e) ↦
        rw (e, move_to_end)
          (rw (get-append j (remove k d) ((k, v) ∷ []), get-remove k j d)
            (unfold get in ground (arith, =ₜ_iff k j)))
  ]

  -- The eviction loop keeps the newest entries, as many as fit.
  pub evict-eq-drop : (size : ℕ) (d : List (List ℕ × V)) → evict size d ≡ drop (length d - size) d
  unfolding evict
  evict-eq-drop size [] = ground arith
  evict-eq-drop size (e ∷ d) = elim (Bool-cases (ltb size (length (e ∷ d)))) [
    | inl more ↦
        let shift : suc (length d) - size ≡ suc (length d - size) = ground arith in
        rw (shift, more) (evict-eq-drop size d)
    | inr fits ↦ let all : suc (length d) - size ≡ 0 = ground arith in rw (all, fits) refl
  ]

  pub length-evict-le : (size : ℕ) (d : List (List ℕ × V)) → length (evict size d) ≤ size
  unfolding evict
  length-evict-le size [] = omega arith
  length-evict-le size (e ∷ d) = ground (arith, length-evict-le size d)

  pub evict_of_le : (size : ℕ) (d : List (List ℕ × V)) → length d ≤ size → evict size d ≡ d
  unfolding evict
  evict_of_le size [] h = refl
  evict_of_le size (e ∷ d) h = ground arith
