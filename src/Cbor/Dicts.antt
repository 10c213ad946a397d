-- ===== src/Cbor/Dicts.antt =====
-- Which values Python can build, and how a dict grows by new keys.
use confidential_ml_feature.Prelude.{◌≡◌, refl, ap, true, false, arith, ok}
use confidential_ml_feature.Cbor.{
  Value, Items, Entries, list, dict, nil, cons, end, entry, is_hashable, has_key, set_item, join,
}
use confidential_ml_feature.Cbor.Decoder.{store_item}

-- A value that Python can build: the keys of each dict are hashable and no two of them are equal.
unfoldable mutual
  pub IsValue : Value → Type 0
  IsValue (list xs) = IsItems xs
  IsValue (dict es) = IsEntries es end
  IsValue _ = Unit

  pub IsItems : Items → Type 0
  IsItems nil = Unit
  IsItems (cons x xs) = IsValue x × IsItems xs

  pub IsEntries : Entries → Entries → Type 0
  IsEntries end before = Unit
  IsEntries (entry k v es) before =
      (is_hashable k ≡ true)
      × (has_key k before ≡ false)
      × IsValue k
      × IsValue v
      × IsEntries es (join before (entry k v end))

pub set_item-join :
    (k v : Value) (es : Entries) → has_key k es ≡ false → set_item k v es ≡ join es (entry k v end)
unfolding set_item has_key join
set_item-join k v end h = refl
set_item-join k v (entry j w es) h = ground (arith, set_item-join k v es)

pub join_assoc :
    (ds : Entries) (k v : Value) (es : Entries)
    → join (join ds (entry k v end)) es ≡ join ds (entry k v es)
unfolding join
join_assoc end k v es = refl
join_assoc (entry j w ds) k v es = ap (entry j w) (join_assoc ds k v es)

pub join-end : (ds : Entries) → join ds end ≡ ds
unfolding join
join-end end = refl
join-end (entry j w ds) = ap (entry j w) (join-end ds)

pub store_item-join :
    (k v : Value) (es : Entries)
    → is_hashable k ≡ true
    → has_key k es ≡ false
    → store_item k v es ≡ ok (join es (entry k v end))
unfolding store_item
store_item-join k v es h new = rw (h, set_item-join k v es new) refl
