-- ===== src/FeatureStore/Dynamo/ByName.antt =====
-- The dict `by_name` of `DynamoDBService.batch_get_feature_sets`: each name with what
-- `get_feature_set` finds.
use confidential_ml_feature.Prelude.{
  ◌≡◌, refl, sym, ap, ◌∙◌, ◌⊎◌, inl, inr, true, false, some, List, [], ◌∷◌, Text, ok, Bool-cases,
  All, arith, ◌=ₜ◌, =ₜ_iff,
}
use mathlib.Core.List.{Memᴰ}
use mathlib.Core.List.Memᴰ as Memᴰ
use confidential_ml_feature.OrderedDict
use confidential_ml_feature.OrderedDict.Laws.{get-insert}
use confidential_ml_feature.FeatureStore.{FeatureSetResponse}
use confidential_ml_feature.FeatureStore.Attributes.{Item}
use confidential_ml_feature.FeatureStore.Dynamo.{Boto, item_to_feature_response, get_feature_set}
use confidential_ml_feature.FeatureStore.Dynamo.Store.{by_name}
use confidential_ml_feature.FeatureStore.Dynamo.Answers.{Holds}
use confidential_ml_feature.FeatureStore.Dynamo.Singly.{
  is_feature_set, key_of, Readable, single_of_kind, single_other, Readable-ItemRead,
}

module _ {Table : Type 0} (boto : Boto Table) (table : Table) (tenant_id : Text) where
  abbrev pub Found : List (Text × FeatureSetResponse) → Type 0
  Found found =
      (name : Text) (r : FeatureSetResponse)
      → OrderedDict.get name found ≡ some r
      → get_feature_set boto tenant_id name table ≡ ok r

  -- Whether the dict has the response of a name, as far as it was read.
  abbrev pub Known :
      List (Text × FeatureSetResponse) → List Item → Text → FeatureSetResponse → Type 0
  Known found items name r =
      (OrderedDict.get name found ≡ some r)
      ⊎ ((item : Item) × Memᴰ item items × Holds boto table (key_of tenant_id name) item)

  pub empty-Found : Found []
  unfolding OrderedDict.get
  empty-Found name r e = absurd (ground (arith, e))

  module _ (names : List Text)
      (readable : (name : Text) → Memᴰ name names → Readable boto table tenant_id name) where
    -- The item is that of one of the names.
    abbrev pub Named : Item → Type 0
    Named item = (name : Text) × Memᴰ name names × Holds boto table (key_of tenant_id name) item

    insert-Found :
        (name : Text) (r : FeatureSetResponse) (found : List (Text × FeatureSetResponse))
        → get_feature_set boto tenant_id name table ≡ ok r
        → Found found
        → Found (OrderedDict.insert name r found)
    insert-Found name r found single h other r' e =
        let at = sym (get-insert name other r found) ∙ e in
        elim (Bool-cases (name =ₜ other)) [
          | inl same ↦
              let here : some r ≡ some r' = ground (arith, at, same) in
              let equal = =ₜ_iff name other in ground (arith, here, same, equal, single)
          | inr ne ↦ h other r' (ground (arith, at, ne))
        ]

    abbrev pub Complete :
        List (Text × FeatureSetResponse) → List Item → List (Text × FeatureSetResponse) → Type 0
    Complete found items found' =
        (name : Text) (r : FeatureSetResponse)
        → Memᴰ name names
        → get_feature_set boto tenant_id name table ≡ ok r
        → Known found items name r
        → OrderedDict.get name found' ≡ some r

    inserted :
        (name : Text) (here r : FeatureSetResponse) (found : List (Text × FeatureSetResponse))
        → here.feature_set_name ≡ name
        → get_feature_set boto tenant_id here.feature_set_name table ≡ ok here
        → get_feature_set boto tenant_id name table ≡ ok r
        → OrderedDict.get name (OrderedDict.insert here.feature_set_name here found) ≡ some r
    inserted name here r found e s s' =
        let equal = =ₜ_iff here.feature_set_name name in
        let at = get-insert here.feature_set_name name here found in
        let same : ok here ≡ ok r =
          sym s ∙ ap (λ x. get_feature_set boto tenant_id x table) e ∙ s' in
        ground (arith, at, equal, e, same)

    Complete-other :
        (item : Item) (items : List Item) (found found' : List (Text × FeatureSetResponse))
        → is_feature_set item ≡ false
        → Complete found items found'
        → Complete found (item ∷ items) found'
    Complete-other item items found found' f h name r m s (inl e) = h name r m s (inl e)
    Complete-other item items found found' f h name r m s (inr (it, among, holds)) =
        elim (Memᴰ.cases_cons among) [
          | inl e ↦
              let refused =
                single_other boto table tenant_id name it holds (ap is_feature_set e ∙ f) in
              absurd (ground (arith, refused, s))
          | inr later ↦ h name r m s (inr (it, later, holds))
        ]

    Complete-feature_set :
        (item : Item) (items : List Item) (here : FeatureSetResponse)
        (found found' : List (Text × FeatureSetResponse))
        → is_feature_set item ≡ true
        → item_to_feature_response boto item ≡ ok here
        → get_feature_set boto tenant_id here.feature_set_name table ≡ ok here
        → Complete (OrderedDict.insert here.feature_set_name here found) items found'
        → Complete found (item ∷ items) found'
    Complete-feature_set item items here found found' t e s h name r m s' (inl known) =
        h name r m s' (
          inl (elim (Bool-cases (here.feature_set_name =ₜ name)) [
            | inl same ↦
                inserted name here r found ((=ₜ_iff here.feature_set_name name).0 same) s s'
            | inr ne ↦ get-insert here.feature_set_name name here found ∙ rw ne known
          ]))
    Complete-feature_set item items here found found' t e s h name r m s' (inr (it, among, holds)) =
        elim (Memᴰ.cases_cons among) [
          | inr later ↦ h name r m s' (inr (it, later, holds))
          | inl same ↦
              elim (Readable-ItemRead boto table tenant_id name it (readable name m) holds) [
                | inl f ↦ absurd (ground (arith, t, f, same))
                | inr (r', t', e', n') ↦
                    let equal : ok r' ≡ ok here =
                      sym e' ∙ ap (item_to_feature_response boto) same ∙ e in
                    h name r m s'
                      (inl (inserted name here r found (ground (arith, equal, n')) s s'))
              ]
        ]

    pub by_name-Complete :
        (items : List Item) (found : List (Text × FeatureSetResponse))
        → All Named items
        → Found found
        → (found' : List (Text × FeatureSetResponse)) × (by_name boto items found ≡ ok found')
          × Found found'
          × Complete found items found'
    unfolding by_name
    by_name-Complete [] found h f = (
      found,
      refl,
      f,
      λ name r m s known. elim known [
        | inl e ↦ e
        | inr (it, among, holds) ↦ absurd (Memᴰ.not-nil among)
      ],
    )
    by_name-Complete (item ∷ items) found ((name, m, holds), rest) f =
        elim (Readable-ItemRead boto table tenant_id name item (readable name m) holds) [
          | inl k ↦
              let (found', e, sound, complete) = by_name-Complete items found rest f in
              (found', rw (k, by_name) e, sound, Complete-other item items found found' k complete)
          | inr (r, t, e, n) ↦
              let s =
                ap (λ x. get_feature_set boto tenant_id x table) n
                ∙ single_of_kind boto table tenant_id name item r holds t e in
              let grown = OrderedDict.insert r.feature_set_name r found in
              let (found', e', sound, complete) =
                by_name-Complete items grown rest (insert-Found r.feature_set_name r found s f) in
              (
                found',
                rw (t, by_name) (rw e e'),
                sound,
                Complete-feature_set item items r found found' t e s complete,
              )
        ]
