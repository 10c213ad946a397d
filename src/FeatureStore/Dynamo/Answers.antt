-- ===== src/FeatureStore/Dynamo/Answers.antt =====
-- The loop of `DynamoDBService.batch_get_feature_sets` over unprocessed keys, and the items that it
-- collects.
use mathlib.Core.Path.{subst}
use confidential_ml_feature.Prelude.{
  map, ap, ◌∙◌, arith, >>=-eq-ok, Result, ℕ, zero, suc, ◌≡◌, refl, ◌⊎◌, inl, inr, some, List, [],
  ◌∷◌, ◌++◌, Text, ok, Ensures, Ensures-ok, All, All-append,
}
use mathlib.Core.List.{Memᴰ}
use mathlib.Core.List.Memᴰ as Memᴰ
use confidential_ml_feature.FeatureStore.Attributes.{Item, Attribute}
use confidential_ml_feature.FeatureStore.{Exception}
use confidential_ml_feature.FeatureStore.Dynamo.{Boto}
use confidential_ml_feature.FeatureStore.Dynamo.Store.{
  batch_read, serialized, deserialize_item, deserialize_items,
}

ok-injective : (xs ys : List Item) → Path (Result Exception (List Item)) (ok xs) (ok ys) → xs ≡ ys
ok-injective xs ys e = cc

module _ {Table : Type 0} (boto : Boto Table) (table : Table) where
  -- The table holds this item under this key.
  abbrev pub Holds : Text × Text → Item → Type 0
  Holds key item = boto.get_item key.0 key.1 table ≡ ok (some item)

  abbrev pub Stored : List (Text × Text) → Item → Type 0
  Stored keys item = (key : Text × Text) × Memᴰ key keys × Holds key item

  -- What DynamoDB answers to a batch of keys: items of the keys, and the keys that it left
  -- unprocessed; an item under any other key of the batch is among the items.
  pub record Answers (keys : List (Text × Text)) (answer : List Item × List (Text × Text))
      : Type 0 where
    pub sound : All (Stored keys) answer.0
    pub unprocessed : (key : Text × Text) → Memᴰ key answer.1 → Memᴰ key keys
    pub complete :
        (key : Text × Text) (item : Item)
        → Memᴰ key keys
        → Holds key item
        → Memᴰ item answer.0 ⊎ Memᴰ key answer.1

  -- Such an answer, in the serialized keys and items that the call takes and returns.
  pub record Answered (keys : List (Text × Text))
      (answer : List Item × List (Attribute × Attribute)) : Type 0 where
    pub items : List Item
    pub rest : List (Text × Text)
    pub left : answer.1 ≡ map (serialized boto) rest
    pub plain : deserialize_items boto answer.0 ≡ ok items
    pub answers : Answers keys (items, rest)

  -- The calls from here on, with the retries that are left, succeed, and none is needed after the
  -- last retry.
  abbrev pub Drains : ℕ → List (Attribute × Attribute) → Type 0
  Drains retries [] = Unit
  Drains zero (key ∷ keys) =
      (items : List Item) × (boto.batch_get_item (key ∷ keys) table 0 ≡ ok (items, []))
  Drains (suc retries) (key ∷ keys) =
      (items : List Item) × (rest : List (Attribute × Attribute)) × (boto.batch_get_item
          (key ∷ keys) table (suc retries)
        ≡ ok (items, rest))
      × Drains retries rest

  Stored-mono :
      (keys rest : List (Text × Text)) (items : List Item)
      → ((key : Text × Text) → Memᴰ key rest → Memᴰ key keys)
      → All (Stored rest) items
      → All (Stored keys) items
  Stored-mono keys rest [] more h = tt
  Stored-mono keys rest (item ∷ items) more h =
      ((h.0.0, more h.0.0 h.0.1, h.0.2), Stored-mono keys rest items more h.1)

  Answers-append :
      (keys rest : List (Text × Text)) (first second : List Item)
      → Answers keys (first, rest)
      → Answers rest (second, [])
      → Answers keys (first ++ second, [])
  Answers-append keys rest first second h k = record {
    sound =
        All-append (Stored keys) first second h.sound
          (Stored-mono keys rest second h.unprocessed k.sound);
    unprocessed = λ key m. absurd (Memᴰ.not-nil m);
    complete = λ key item m e. elim (h.complete key item m e) [
      | inl here ↦ inl (Memᴰ.append_left second here)
      | inr left ↦ elim (k.complete key item left e) [
        | inl there ↦ inl (Memᴰ.append_right first there)
        | inr m' ↦ absurd (Memᴰ.not-nil m')
      ]
    ];
  }

  -- Each answer of `batch_get_item` is such an answer: the client leaves the conversion from and to
  -- the serialized values to its caller.
  abbrev pub IsAnswering : Type 0
  IsAnswering =
      (keys : List (Text × Text)) (retries : ℕ)
      → Ensures (Answered keys) (boto.batch_get_item (map (serialized boto) keys) table retries)

  deserialize_items-append :
      (raw more items others : List Item)
      → deserialize_items boto raw ≡ ok items
      → deserialize_items boto more ≡ ok others
      → deserialize_items boto (raw ++ more) ≡ ok (items ++ others)
  unfolding deserialize_items
  deserialize_items-append [] more items others h k =
      k ∙ ap (λ xs. ok (xs ++ others)) (ok-injective [] items h)
  deserialize_items-append (item ∷ raw) more items others h k =
      let (plain, e, h') = >>=-eq-ok (deserialize_item boto item) _ h in
      let (rest, e', h'') = >>=-eq-ok (deserialize_items boto raw) _ h' in
      rw (e, deserialize_items)
        (rw (deserialize_items-append raw more rest others e' k)
          (ap (λ xs. ok (xs ++ others)) (ok-injective (plain ∷ rest) items h'')))

  none_left : (rest : List (Text × Text)) → [] ≡ map (serialized boto) rest → rest ≡ []
  none_left [] e = refl
  none_left (key ∷ rest) e = absurd (ground (arith, e))

  -- The loop's items, as they are and deserialized.
  pub record Collected (retries : ℕ) (keys : List (Text × Text)) : Type 0 where
    pub raw : List Item
    pub items : List Item
    pub read : batch_read boto retries (map (serialized boto) keys) table ≡ ok raw
    pub plain : deserialize_items boto raw ≡ ok items
    pub answers : Answers keys (items, [])

  module _ (law : IsAnswering) where
    pub batch_read-Collected :
        (retries : ℕ) (keys : List (Text × Text))
        → Drains retries (map (serialized boto) keys)
        → Collected retries keys
    unfolding batch_read deserialize_items
    batch_read-Collected retries [] d = record {
      raw = [];
      items = [];
      read = refl;
      plain = refl;
      answers = record {
        sound = tt;
        unprocessed = λ key m. m;
        complete = λ key item m e. absurd (Memᴰ.not-nil m);
      };
    }
    batch_read-Collected zero (key ∷ keys) (raw, e) =
        let a = Ensures-ok (Answered (key ∷ keys)) _ (raw, []) (law (key ∷ keys) 0) e in
        record {
          raw = raw;
          items = a.items;
          read = rw (e, batch_read) refl;
          plain = a.plain;
          answers =
              subst (λ r. Answers (key ∷ keys) (a.items, r)) (none_left a.rest a.left) a.answers;
        }
    batch_read-Collected (suc retries) (key ∷ keys) (raw, rest, e, d) =
        let a =
          Ensures-ok (Answered (key ∷ keys)) _ (raw, rest) (law (key ∷ keys) (suc retries)) e in
        let c = batch_read-Collected retries a.rest (subst (Drains retries) a.left d) in
        let later : batch_read boto retries rest table ≡ ok c.raw =
          ap (λ ks. batch_read boto retries ks table) a.left ∙ c.read in
        record {
          raw = raw ++ c.raw;
          items = a.items ++ c.items;
          read = rw (e, batch_read) (rw later refl);
          plain = deserialize_items-append raw c.raw a.items c.items a.plain c.plain;
          answers = Answers-append (key ∷ keys) a.rest a.items c.items a.answers c.answers;
        }
