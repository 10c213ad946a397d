-- ===== src/Python/Json.antt =====
-- The values of `json.loads` and `json.dumps`, and what the program asks of them. A float is its 64
-- bits, so that the operations on floats can be left to the platform.
pub mod Lookup
use confidential_ml_feature.Prelude.{
  ℕ, ◌^◌, ℤ, pos, negsuc, Bool, true, false, ◌||◌, ◌==◌, not, Option, none, some, List, [], ◌∷◌,
  Text, ◌=ₜ◌, if◌then◌else◌,
}
use confidential_ml_feature.Python.Strip.{is_empty}

mutual
  pub data Json : Type 0 where
    null : Json
    bool : Bool → Json
    int : ℤ → Json
    float : ℕ → Json
    str : Text → Json
    arr : Items → Json
    obj : Fields → Json

  pub data Items : Type 0 where
    nil : Items
    cons : Json → Items → Items

  pub data Fields : Type 0 where
    end : Fields
    field : Text → Json → Fields → Fields

-- d.get(name); a value of None and an absent key are told apart.
unfoldable pub get_field : Text → Fields → Option Json
get_field name end = none
get_field name (field k v d) = if k =ₜ name then some v else get_field name d

-- d[name] = value: the entry that is there keeps its place, a new one comes last.
unfoldable pub set_field : Text → Json → Fields → Fields
set_field name v end = field name v end
set_field name v (field k w d) =
    let rest = set_field name v d in if k =ₜ name then field k v d else field k w rest

-- list(_)
abbrev pub to_list : Items → List Json
to_list nil = []
to_list (cons x xs) = x ∷ to_list xs

-- isinstance(_, str)
abbrev pub as_str : Option Json → Option Text
as_str (some (str s)) = some s
as_str _ = none

-- isinstance(_, list)
abbrev pub as_list : Option Json → Option Items
as_list (some (arr xs)) = some xs
as_list _ = none

-- _ is None, for d.get(name).
abbrev pub is_none : Option Json → Bool
is_none none = true
is_none (some null) = true
is_none _ = false

-- bool(_); the two zeros are the floats that are false.
abbrev pub truthy : Json → Bool
truthy null = false
truthy (bool b) = b
truthy (int (pos n)) = not (n == 0)
truthy (int (negsuc n)) = true
truthy (float bits) = not (bits == 0 || bits == 2 ^ 63)
truthy (str s) = not (is_empty s)
truthy (arr nil) = false
truthy (arr _) = true
truthy (obj end) = false
truthy (obj _) = true
