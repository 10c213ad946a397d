-- ===== src/FeatureStore/Dynamo/Table.antt =====
-- What DynamoDB and boto3 promise of a table: conditions, puts, reads, and the values read back.
use confidential_ml_feature.Prelude.{
  Option, Bool, true, false, not, ◌&&◌, none, ℕ, ◌≡◌, some, Text, ok, err,
}
use confidential_ml_feature.Python.Codes.{codes}
use confidential_ml_feature.FeatureStore.Attributes.{
  Attribute, Attributes, Item, text, int, decimal, list, dict, nil, cons, end, entry, get_attribute,
}
use confidential_ml_feature.FeatureStore.Dynamo.{
  Condition, exists, not_exists, both, conditional_check_failed, Boto,
}

-- What boto3 makes of a value that it stores and reads: an int comes back as a Decimal.
unfoldable mutual
  pub as_read : (ℕ → ℕ) → Attribute → Attribute
  as_read of_int (dict item) = dict (item_as_read of_int item)
  as_read of_int (list vs) = list (list_as_read of_int vs)
  as_read of_int (int n) = decimal (of_int n)
  as_read of_int v = v

  pub list_as_read : (ℕ → ℕ) → Attributes → Attributes
  list_as_read of_int nil = nil
  list_as_read of_int (cons v vs) = cons (as_read of_int v) (list_as_read of_int vs)

  pub item_as_read : (ℕ → ℕ) → Item → Item
  item_as_read of_int end = end
  item_as_read of_int (entry k v item) = entry k (as_read of_int v) (item_as_read of_int item)

-- Whether what is under a key meets a condition. The attributes of nothing do not exist.
abbrev pub has : Text → Option Item → Bool
has name none = false
has name (some item) = elim (get_attribute name item) [ none ↦ false | some v ↦ true ]

abbrev pub meets : Condition → Option Item → Bool
meets (exists name) there = has name there
meets (not_exists name) there = not (has name there)
meets (both first second) there = meets first there && meets second there

-- A table keeps what is put under a key, and refuses a put whose condition is not met by what is
-- under the key. Texts of floats, of times and of ints are read back.
pub record IsTable {Table : Type 0} (boto : Boto Table) (of_int : ℕ → ℕ) : Type 0 where
  pub kept :
      (item : Item) (condition : Option Condition) (table : Table) (tenant_id resource_id : Text)
      → get_attribute (codes "tenant_id") item ≡ some (text tenant_id)
      → get_attribute (codes "resource_id") item ≡ some (text resource_id)
      → (boto.put_item item condition table).0 ≡ ok tt
      → boto.get_item tenant_id resource_id (boto.put_item item condition table).1
        ≡ ok (some (item_as_read of_int item))
  pub refused :
      (item : Item) (condition : Condition) (there : Option Item) (table : Table)
      (tenant_id resource_id : Text)
      → get_attribute (codes "tenant_id") item ≡ some (text tenant_id)
      → get_attribute (codes "resource_id") item ≡ some (text resource_id)
      → boto.get_item tenant_id resource_id table ≡ ok there
      → meets condition there ≡ false
      → boto.put_item item (some condition) table ≡ (err conditional_check_failed, table)
  pub exact : (x : ℕ) → boto.float_of (boto.decimal_of x) ≡ x
  pub dated : (t : ℕ) → boto.from_iso (boto.iso t) ≡ some t
  pub int_read : (n : ℕ) → boto.to_int (int n) ≡ some n
  pub decimal_read : (n : ℕ) → boto.to_int (decimal (of_int n)) ≡ some n
