-- ===== src/OrderedDict.antt =====
-- Python's `OrderedDict` with text keys, oldest entry first: what enclave/inference_engine.py and
-- enclave/kms_client.py use of it. Also the eviction loop that both write.
pub mod Laws
pub mod Recency
pub mod Entries
use confidential_ml_feature.Prelude.{
  ℕ, List, [], ◌∷◌, ◌++◌, Option, none, some, Bool, true, false, map, length, ltb, ◌=ₜ◌,
  if◌then◌else◌,
}

module _ {ℓ} {V : Type ℓ} where
  -- d.get(k)
  unfoldable pub get : List ℕ → List (List ℕ × V) → Option V
  get k [] = none
  get k ((j, v) ∷ d) = if j =ₜ k then some v else get k d

  -- k in d
  unfoldable pub contains : List ℕ → List (List ℕ × V) → Bool
  unfolding get
  contains k d = elim (get k d) [ none ↦ false | some _ ↦ true ]

  -- d.pop(k, None)
  unfoldable pub remove : List ℕ → List (List ℕ × V) → List (List ℕ × V)
  remove k [] = []
  remove k ((j, v) ∷ d) = let rest = remove k d in if j =ₜ k then rest else (j, v) ∷ rest

  -- d[k] = v: a key that is there keeps its place, a new one comes last.
  unfoldable pub insert : List ℕ → V → List (List ℕ × V) → List (List ℕ × V)
  insert k v [] = (k, v) ∷ []
  insert k v ((j, w) ∷ d) = let rest = insert k v d in if j =ₜ k then (k, v) ∷ d else (j, w) ∷ rest

  -- d.move_to_end(k), for a key that is there.
  unfoldable pub move_to_end : List ℕ → List (List ℕ × V) → List (List ℕ × V)
  unfolding get remove
  move_to_end k d = elim (get k d) [ none ↦ d | some v ↦ remove k d ++ (k, v) ∷ [] ]

  -- while len(d) > size: d.popitem(last=False)
  unfoldable pub evict : ℕ → List (List ℕ × V) → List (List ℕ × V)
  evict size [] = []
  evict size (e ∷ d) = let rest = evict size d in if ltb size (length (e ∷ d)) then rest else e ∷ d

  -- list(d.keys())
  abbrev pub keys : List (List ℕ × V) → List (List ℕ)
  keys d = map (λ e. e.0) d
