-- ===== src/FeatureStore/Vector.antt =====
-- `FeatureService.prepare_feature_vector`: the sort of a set's features by their names.
use confidential_ml_feature.Prelude.{
  ℕ, ◌≡◌, ◌≢◌, refl, ap, ◌∙◌, sym, All, true, false, List, [], ◌∷◌, map, Text, arith,
}
use confidential_ml_feature.FeatureStore.Service.{
  text_leb, insert_sorted, sort_items, feature_vector,
}

text_leb_total : (s t : Text) → text_leb s t ≡ false → text_leb t s ≡ true
unfolding text_leb
text_leb_total [] t h = cc
text_leb_total (x ∷ s) [] h = refl
text_leb_total (x ∷ s) (y ∷ t) h = ground (arith, text_leb_total s t)

text_leb_antisym : (s t : Text) → text_leb s t ≡ true → text_leb t s ≡ true → s ≡ t
unfolding text_leb
text_leb_antisym [] [] h k = refl
text_leb_antisym [] (y ∷ t) h k = cc
text_leb_antisym (x ∷ s) [] h k = cc
text_leb_antisym (x ∷ s) (y ∷ t) h k = ground (arith, text_leb_antisym s t)

text_leb_trans : (s t u : Text) → text_leb s t ≡ true → text_leb t u ≡ true → text_leb s u ≡ true
unfolding text_leb
text_leb_trans [] t u h k = refl
text_leb_trans (x ∷ s) [] u h k = cc
text_leb_trans (x ∷ s) (y ∷ t) [] h k = cc
text_leb_trans (x ∷ s) (y ∷ t) (z ∷ u) h k = ground (arith, text_leb_trans s t u)

insert_sorted_swap :
    (a b : Text × ℕ) (l : List (Text × ℕ))
    → a.0 ≢ b.0
    → insert_sorted a (insert_sorted b l) ≡ insert_sorted b (insert_sorted a l)
unfolding insert_sorted
insert_sorted_swap a b [] ne = ground (arith, text_leb_total a.0 b.0, text_leb_antisym a.0 b.0)
insert_sorted_swap a b (f ∷ l) ne = ground (
  arith,
  text_leb_total a.0 b.0,
  text_leb_antisym a.0 b.0,
  text_leb_total a.0 f.0,
  text_leb_total b.0 f.0,
  text_leb_trans a.0 b.0 f.0,
  text_leb_trans b.0 a.0 f.0,
  insert_sorted_swap a b l ne,
)

-- The same features, in some order.
pub data Reordered : List (Text × ℕ) → List (Text × ℕ) → Type 0 where
  done : Reordered [] []
  keep : (e : Text × ℕ) {l r : List (Text × ℕ)} → Reordered l r → Reordered (e ∷ l) (e ∷ r)
  swap : (e f : Text × ℕ) (l : List (Text × ℕ)) → Reordered (e ∷ f ∷ l) (f ∷ e ∷ l)
  through : {l m r : List (Text × ℕ)} → Reordered l m → Reordered m r → Reordered l r

-- No name occurs twice, as in a dict.
abbrev pub HasDistinctNames : List (Text × ℕ) → Type 0
HasDistinctNames [] = Unit
HasDistinctNames (e ∷ l) = All (λ (f : Text × ℕ). e.0 ≢ f.0) l × HasDistinctNames l

All-Reordered : (P : Text × ℕ → Type 0) {l r : List (Text × ℕ)} → Reordered l r → All P l → All P r
All-Reordered P done h = h
All-Reordered P (keep e p) h = (h.0, All-Reordered P p h.1)
All-Reordered P (swap e f l) h = (h.1.0, (h.0, h.1.1))
All-Reordered P (through p q) h = All-Reordered P q (All-Reordered P p h)

HasDistinctNames-Reordered :
    {l r : List (Text × ℕ)} → Reordered l r → HasDistinctNames l → HasDistinctNames r
HasDistinctNames-Reordered done h = h
HasDistinctNames-Reordered (keep e p) h =
    (All-Reordered (λ (f : Text × ℕ). e.0 ≢ f.0) p h.0, HasDistinctNames-Reordered p h.1)
HasDistinctNames-Reordered (swap e f l) h = ((λ q. h.0.0 (sym q), h.1.0), (h.0.1, h.1.1))
HasDistinctNames-Reordered (through p q) h =
    HasDistinctNames-Reordered q (HasDistinctNames-Reordered p h)

sort_items-Reordered :
    {l r : List (Text × ℕ)} → Reordered l r → HasDistinctNames l → sort_items l ≡ sort_items r
unfolding sort_items
sort_items-Reordered done h = refl
sort_items-Reordered (keep e p) h = ap (insert_sorted e) (sort_items-Reordered p h.1)
sort_items-Reordered (swap e f l) h = insert_sorted_swap e f (sort_items l) h.0.0
sort_items-Reordered (through p q) h =
    sort_items-Reordered p h ∙ sort_items-Reordered q (HasDistinctNames-Reordered p h)

-- For features with distinct names, as a dict's are: the feature vector does not depend on the order
-- in which they are stored.
pub feature_vector-Reordered :
    (l r : List (Text × ℕ))
    → Reordered l r
    → HasDistinctNames l
    → feature_vector l ≡ feature_vector r
unfolding feature_vector
feature_vector-Reordered l r p h = ap (map (λ (e : Text × ℕ). e.1)) (sort_items-Reordered p h)
