-- ===== src/OrderedDict/Recency.antt =====
-- Distinct keys and the order of use: the entry that was used last, the end of the list, and
-- eviction.
use confidential_ml_feature.Prelude.{
  ℕ, zero, suc, ◌-◌, ◌≤◌, ◌<◌, ◌≡◌, refl, ◌∙◌, List, [], ◌∷◌, ◌++◌, none, some, arith, Option-cases,
  inl, inr, length, length-append, drop, =ₜ_iff, =ₜ-refl,
}
use confidential_ml_feature.OrderedDict.{get, remove, insert, move_to_end, evict}
use confidential_ml_feature.OrderedDict.Laws.{
  Distinct, get-append, get-remove, get-insert, evict-eq-drop,
}

module _ {ℓ} {V : Type ℓ} where
  pub move_to_end_of_some :
      (k : List ℕ) (d : List (List ℕ × V)) (v : V)
      → get k d ≡ some v
      → move_to_end k d ≡ remove k d ++ (k, v) ∷ []
  unfolding move_to_end
  move_to_end_of_some k d v e = rw (e, move_to_end) refl

  remove-insert :
      (k : List ℕ) (v : V) (d : List (List ℕ × V)) → remove k (insert k v d) ≡ remove k d
  unfolding remove insert
  remove-insert k v [] = ground (arith, =ₜ-refl k)
  remove-insert k v ((j, w) ∷ d) = ground (arith, remove-insert k v d, =ₜ-refl k)

  -- An entry that is stored and moved stands at the end, and once.
  pub move_to_end-insert :
      (k : List ℕ) (v : V) (d : List (List ℕ × V))
      → move_to_end k (insert k v d) ≡ remove k d ++ (k, v) ∷ []
  move_to_end-insert k v d =
      move_to_end_of_some k (insert k v d) v (rw (get-insert k k v d, =ₜ-refl k) refl)
      ∙ rw (remove-insert k v d) refl

  pub get-remove_self : (k : List ℕ) (d : List (List ℕ × V)) → get k (remove k d) ≡ none
  get-remove_self k d = rw (get-remove k k d, =ₜ-refl k) refl

  pub Distinct-remove : (k : List ℕ) (d : List (List ℕ × V)) → Distinct d → Distinct (remove k d)
  unfolding remove
  Distinct-remove k [] h = tt
  Distinct-remove k ((j, v) ∷ d) h = ground (arith, Distinct-remove k d, get-remove k j d)

  pub Distinct-snoc :
      (k : List ℕ) (v : V) (d : List (List ℕ × V))
      → Distinct d
      → get k d ≡ none
      → Distinct (d ++ (k, v) ∷ [])
  unfolding get
  Distinct-snoc k v [] h e = (refl, tt)
  Distinct-snoc k v ((j, w) ∷ d) h e =
      ground (arith, Distinct-snoc k v d, get-append j d ((k, v) ∷ []), =ₜ_iff j k, =ₜ_iff k j)

  pub Distinct-evict : (size : ℕ) (d : List (List ℕ × V)) → Distinct d → Distinct (evict size d)
  unfolding evict
  Distinct-evict size [] h = tt
  Distinct-evict size (e ∷ d) h = ground (arith, Distinct-evict size d)

  pub length-remove-le : (k : List ℕ) (d : List (List ℕ × V)) → length (remove k d) ≤ length d
  unfolding remove
  length-remove-le k [] = omega arith
  length-remove-le k ((j, v) ∷ d) = ground (arith, length-remove-le k d)

  pub length-remove-lt :
      (k : List ℕ) (d : List (List ℕ × V)) (v : V)
      → get k d ≡ some v
      → length (remove k d) < length d
  unfolding remove get
  length-remove-lt k [] v e = cc
  length-remove-lt k ((j, w) ∷ d) v e = ground (arith, length-remove-lt k d v, length-remove-le k d)

  drop-snoc :
      (n : ℕ) (d : List (List ℕ × V)) (e : List ℕ × V)
      → n ≤ length d
      → drop n (d ++ e ∷ []) ≡ drop n d ++ e ∷ []
  drop-snoc zero d e h = refl
  drop-snoc (suc n) [] e h = elim h [ ]
  drop-snoc (suc n) (x ∷ d) e h = drop-snoc n d e (omega arith)

  -- Where there is room for one entry, the newest one survives eviction, at the end.
  pub evict-snoc :
      (size : ℕ) (d : List (List ℕ × V)) (e : List ℕ × V)
      → 0 < size
      → evict size (d ++ e ∷ []) ≡ evict (size - 1) d ++ e ∷ []
  evict-snoc size d e h =
      let shift : length (d ++ e ∷ []) - size ≡ length d - (size - 1) =
        omega (arith, length-append d (e ∷ [])) in
      evict-eq-drop size (d ++ e ∷ [])
      ∙ rw (shift, evict-eq-drop (size - 1) d) (drop-snoc (length d - (size - 1)) d e (omega arith))

  -- Eviction only forgets: what is still found was there before.
  pub get-evict :
      (size : ℕ) (j : List ℕ) (d : List (List ℕ × V)) (v : V)
      → Distinct d
      → get j (evict size d) ≡ some v
      → get j d ≡ some v
  unfolding evict get
  get-evict size j [] v h e = e
  get-evict size j ((k, w) ∷ d) v h e = ground (arith, get-evict size j d v, =ₜ_iff k j)

  move_to_end_of_none : (k : List ℕ) (d : List (List ℕ × V)) → get k d ≡ none → move_to_end k d ≡ d
  unfolding move_to_end
  move_to_end_of_none k d e = rw (e, move_to_end) refl

  pub remove_of_none : (k : List ℕ) (d : List (List ℕ × V)) → get k d ≡ none → remove k d ≡ d
  unfolding remove get
  remove_of_none k [] e = refl
  remove_of_none k ((j, w) ∷ d) e = ground (arith, remove_of_none k d)

  -- The entry that was used last is taken out again with what was taken out before.
  remove-remove-snoc :
      (k : List ℕ) (v : V) (d : List (List ℕ × V))
      → remove k (remove k d ++ (k, v) ∷ []) ≡ remove k d
  unfolding remove
  remove-remove-snoc k v [] = ground (arith, =ₜ-refl k)
  remove-remove-snoc k v ((j, w) ∷ d) = ground (arith, remove-remove-snoc k v d)

  pub get-remove-snoc :
      (k : List ℕ) (v : V) (d : List (List ℕ × V)) → get k (remove k d ++ (k, v) ∷ []) ≡ some v
  unfolding get
  get-remove-snoc k v d =
      rw (get-append k (remove k d) ((k, v) ∷ []), get-remove_self k d) (rw (=ₜ-refl k) refl)

  pub move_to_end-remove-snoc :
      (k : List ℕ) (v : V) (d : List (List ℕ × V))
      → move_to_end k (remove k d ++ (k, v) ∷ []) ≡ remove k d ++ (k, v) ∷ []
  move_to_end-remove-snoc k v d =
      move_to_end_of_some k (remove k d ++ (k, v) ∷ []) v (get-remove-snoc k v d)
      ∙ rw (remove-remove-snoc k v d) refl

  pub Distinct-move_to_end :
      (k : List ℕ) (d : List (List ℕ × V)) → Distinct d → Distinct (move_to_end k d)
  Distinct-move_to_end k d h = elim (Option-cases (get k d)) [
    | inl e ↦ rw (move_to_end_of_none k d e) h
    | inr (v, e) ↦
        rw (move_to_end_of_some k d v e)
          (Distinct-snoc k v (remove k d) (Distinct-remove k d h) (get-remove_self k d))
  ]

  pub length-move_to_end-le :
      (k : List ℕ) (d : List (List ℕ × V)) → length (move_to_end k d) ≤ length d
  length-move_to_end-le k d = elim (Option-cases (get k d)) [
    | inl e ↦ rw (move_to_end_of_none k d e) (omega arith)
    | inr (v, e) ↦
        rw (move_to_end_of_some k d v e)
          (omega (arith, length-append (remove k d) ((k, v) ∷ []), length-remove-lt k d v e))
  ]

  pub get-evict-none :
      (size : ℕ) (j : List ℕ) (d : List (List ℕ × V)) → get j d ≡ none → get j (evict size d) ≡ none
  unfolding evict get
  get-evict-none size j [] e = e
  get-evict-none size j ((k, w) ∷ d) e = ground (arith, get-evict-none size j d, =ₜ_iff k j)

  -- What was stored last is found after eviction, where there is room for one entry.
  pub get-evict-insert :
      (size : ℕ) (k : List ℕ) (v : V) (d : List (List ℕ × V))
      → 0 < size
      → get k (evict size (move_to_end k (insert k v d))) ≡ some v
  get-evict-insert size k v d h =
      rw (move_to_end-insert k v d, evict-snoc size (remove k d) (k, v) h)
        (rw
          (
            get-append k (evict (size - 1) (remove k d)) ((k, v) ∷ []),
            get-evict-none (size - 1) k (remove k d) (get-remove_self k d),
          )
          (unfold get in rw (=ₜ-refl k) refl))
