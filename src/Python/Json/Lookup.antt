-- ===== src/Python/Json/Lookup.antt =====
-- What `get` finds in a mapping after an assignment to one of its keys.
use confidential_ml_feature.Prelude.{
  ◌≡◌, refl, ap, inl, inr, false, some, ◌=ₜ◌, if◌then◌else◌, =ₜ-sound, =ₜ-refl, Bool-cases, Text,
}
use confidential_ml_feature.Python.Json.{Json, Fields, end, field, get_field, set_field}

pub get_field-set_field_same :
    (name : Text) (v : Json) (d : Fields) → get_field name (set_field name v d) ≡ some v
unfolding get_field set_field
get_field-set_field_same name v end = rw (=ₜ-refl name) refl
get_field-set_field_same name v (field k w d) = elim (Bool-cases (k =ₜ name)) [
  | inl e ↦ rw (e, get_field) (rw e refl)
  | inr e ↦ rw (e, get_field) (rw e (get_field-set_field_same name v d))
]

pub get_field-set_field_other :
    (name other : Text) (v : Json) (d : Fields)
    → (name =ₜ other) ≡ false
    → get_field other (set_field name v d) ≡ get_field other d
unfolding get_field set_field
get_field-set_field_other name other v end h = rw h refl
get_field-set_field_other name other v (field k w d) h = elim (Bool-cases (k =ₜ name)) [
  | inl e ↦
      let differs : (k =ₜ other) ≡ false = rw (=ₜ-sound k name e) h in
      rw (e, get_field) (rw differs refl)
  | inr e ↦
      rw (e, get_field)
        (ap (λ r. if k =ₜ other then some w else r) (get_field-set_field_other name other v d h))
]
