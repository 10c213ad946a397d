-- ===== src/Cbor.antt =====
-- enclave/attestation.py, the CBOR subset: the values, what Python's dict does with them as keys,
-- and the errors. The encoder, the decoder and the proofs are in the modules below.
pub mod Encoder
pub mod Decoder
pub mod Header
pub mod Dicts
pub mod Steps
pub mod RoundTrip
pub mod Fuel
use confidential_ml_feature.Prelude.{
  ℕ, suc, ℤ, Bool, true, false, Text, Bytes, ◌&&◌, ◌==◌, ◌=ₜ◌, pos, negsuc, if◌then◌else◌,
}

-- The Python values that the encoder takes and the decoder makes. A dict lists its items in order.
mutual
  pub data Value : Type 0 where
    bool : Bool → Value
    null : Value
    int : ℤ → Value
    bytes : Bytes → Value
    str : Text → Value
    list : Items → Value
    dict : Entries → Value

  pub data Items : Type 0 where
    nil : Items
    cons : Value → Items → Items

  pub data Entries : Type 0 where
    end : Entries
    entry : Value → Value → Entries → Entries

-- `AttestationError` with its messages, and what Python itself raises on the same paths.
-- `out_of_fuel` has no counterpart in the program.
pub data Error : Type 0 where
  unexpected_end indefinite_length unsupported_simple unsupported_major trailing_bytes : Error
  unicode_encode unicode_decode unhashable overflow out_of_fuel : Error

abbrev pub count_items : Items → ℕ
count_items nil = 0
count_items (cons x xs) = suc (count_items xs)

abbrev pub count_entries : Entries → ℕ
count_entries end = 0
count_entries (entry k v es) = suc (count_entries es)

-- Lists and dicts are not hashable.
abbrev pub is_hashable : Value → Bool
is_hashable (list xs) = false
is_hashable (dict es) = false
is_hashable _ = true

abbrev of_bool : Bool → ℤ
of_bool true = pos 1
of_bool false = pos 0

abbrev pub int_eq : ℤ → ℤ → Bool
int_eq (pos m) (pos n) = m == n
int_eq (negsuc m) (negsuc n) = m == n
int_eq _ _ = false

-- Python's `==` between hashable keys: True is 1 and False is 0.
unfoldable pub key_eq : Value → Value → Bool
key_eq (bool a) (bool b) = int_eq (of_bool a) (of_bool b)
key_eq (bool a) (int n) = int_eq (of_bool a) n
key_eq (int m) (bool b) = int_eq m (of_bool b)
key_eq (int m) (int n) = int_eq m n
key_eq null null = true
key_eq (bytes a) (bytes b) = a =ₜ b
key_eq (str a) (str b) = a =ₜ b
key_eq _ _ = false

-- key in d
unfoldable pub has_key : Value → Entries → Bool
unfolding key_eq
has_key k end = false
has_key k (entry j v es) = if key_eq j k then true else has_key k es

-- d[k] = v: the key that is there stays, with the new value; a new key comes last.
unfoldable pub set_item : Value → Value → Entries → Entries
unfolding key_eq
set_item k v end = entry k v end
set_item k v (entry j w es) =
    let rest = set_item k v es in if key_eq j k then entry j v es else entry j w rest

-- The entries of one dict after those of another.
unfoldable pub join : Entries → Entries → Entries
join end es = es
join (entry k v ds) es = entry k v (join ds es)
