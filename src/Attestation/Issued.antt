-- ===== src/Attestation/Issued.antt =====
-- The documents of a `MockNSM` that its constructor made, against the parser.
use confidential_ml_feature.Prelude.{
  ◌≡◌, refl, sym, ◌∙◌, inl, inr, true, false, Option, List, [], ◌∷◌, arith, if◌then◌else◌,
  Bool-cases, Text, Bytes, length, ok, require, Ensures, Ensures-bind, Ensures-ok, ℤ,
}
use confidential_ml_feature.Cbor.{
  Value, Entries, int, bytes, dict, end, entry, int_eq, has_key, join, key_eq,
}
use confidential_ml_feature.Cbor.Dicts.{IsValue, IsEntries}
use confidential_ml_feature.Attestation.{parse_attestation_document}
use confidential_ml_feature.Attestation.MockNsm.{MockNsm, pcr_entries, get_attestation_document}
use confidential_ml_feature.Attestation.RoundTrip.{parsed, parse-get_attestation_document}
use confidential_ml_feature.Attestation.Pcrs.{
  Readers, RawIndex, RawValue, set_pcr, read_index, read_value, normalize_pcrs, pcrs_or_default,
  is_pcr_length, value_of_other_length, make_nsm,
}

has_key-join :
    (k : Value) (a b : Entries) → has_key k (join a b) ≡ (if has_key k a then true else has_key k b)
unfolding has_key join
has_key-join k end b = refl
has_key-join k (entry j v a) b = ground (arith, has_key-join k a b)

-- Only the keys of the entries before matter.
IsEntries-has_key :
    (es before before' : Entries)
    → ((k : Value) → has_key k before ≡ has_key k before')
    → IsEntries es before
    → IsEntries es before'
unfolding IsEntries
IsEntries-has_key end before before' same v = tt
IsEntries-has_key (entry k w es) before before' same (h, fresh, key, value, rest) = (
  h,
  sym (same k) ∙ fresh,
  key,
  value,
  IsEntries-has_key es (join before (entry k w end)) (join before' (entry k w end))
      (λ j. rw (has_key-join j before, has_key-join j before', same j) refl) rest,
)

same_key :
    (k : Value) (j : ℤ) (w v : Bytes)
    → has_key k (entry (int j) (bytes w) end) ≡ has_key k (entry (int j) (bytes v) end)
unfolding has_key
same_key k j w v = refl

other_key :
    (index j : ℤ) (w : Bytes)
    → int_eq j index ≡ false
    → has_key (int index) (entry (int j) (bytes w) end) ≡ false
unfolding has_key key_eq
other_key index j w e = rw e refl

set_pcr-IsEntries :
    (index : ℤ) (value : Bytes) (pcrs : List (ℤ × Bytes)) (before : Entries)
    → has_key (int index) before ≡ false
    → IsEntries (pcr_entries pcrs) before
    → IsEntries (pcr_entries (set_pcr index value pcrs)) before
unfolding IsEntries pcr_entries set_pcr
set_pcr-IsEntries index value [] before fresh v = (refl, fresh, tt, tt, tt)
set_pcr-IsEntries index value ((j, w) ∷ pcrs) before fresh (h, other, key, val, rest) =
    elim (Bool-cases (int_eq j index)) [
      | inl e ↦ rw e (
        h,
        other,
        key,
        val,
        IsEntries-has_key (pcr_entries pcrs) (join before (entry (int j) (bytes w) end))
            (join before (entry (int j) (bytes value) end))
            (λ k. rw (has_key-join k before, has_key-join k before, same_key k j w value) refl)
            rest,
      )
      | inr e ↦ rw e (
        h,
        other,
        key,
        val,
        set_pcr-IsEntries index value pcrs (join before (entry (int j) (bytes w) end))
            (rw (has_key-join (int index) before, fresh) (other_key index j w e)) rest,
      )
    ]

abbrev FormsDict : List (ℤ × Bytes) → Type 0
FormsDict pcrs = IsEntries (pcr_entries pcrs) end

module _ (readers : Readers) where
  normalize_pcrs-IsEntries :
      (raw : List (RawIndex × RawValue)) (normalized : List (ℤ × Bytes))
      → FormsDict normalized
      → Ensures FormsDict (normalize_pcrs readers raw normalized)
  unfolding normalize_pcrs has_key
  normalize_pcrs-IsEntries [] normalized v = v
  normalize_pcrs-IsEntries ((index, value) ∷ raw) normalized v =
      Ensures-bind FormsDict (read_index readers index) _ (λ i e.
        Ensures-bind FormsDict (read_value readers value) _ (λ b f.
          Ensures-bind FormsDict (require (is_pcr_length (length b)) value_of_other_length) _
            (λ u g.
              normalize_pcrs-IsEntries raw (set_pcr i b normalized)
                (set_pcr-IsEntries i b normalized end refl v))))

  make_nsm-IsValue :
      (pcrs : Option (List (RawIndex × RawValue))) (module_id : Text) (timestamp_ms : Option ℤ)
      (digest : Text) (certificate : Option Bytes) (cabundle : Option (List Bytes))
      → Ensures
          (λ (nsm : MockNsm). IsValue (dict (pcr_entries nsm.pcrs)))
          (make_nsm readers pcrs module_id timestamp_ms digest certificate cabundle)
  unfolding make_nsm IsValue IsEntries pcr_entries
  make_nsm-IsValue pcrs module_id timestamp_ms digest certificate cabundle =
      Ensures-bind (λ (n : MockNsm). IsValue (dict (pcr_entries n.pcrs)))
        (normalize_pcrs readers (pcrs_or_default readers pcrs) []) _
        (λ ps e.
          Ensures-ok FormsDict (normalize_pcrs readers (pcrs_or_default readers pcrs) []) ps
            (normalize_pcrs-IsEntries (pcrs_or_default readers pcrs) [] tt) e)

  -- For every mock NSM that the constructor makes, of any mapping of PCRs that it takes, each optional
  -- field given or not: if the document can be encoded, then the parser finds in it exactly the NSM's
  -- fields and the given ones, and that it is a COSE_Sign1 wrapper.
  pub parse-make_nsm :
      (pcrs : Option (List (RawIndex × RawValue))) (module_id : Text) (timestamp_ms : Option ℤ)
      (digest : Text) (certificate : Option Bytes) (cabundle : Option (List Bytes)) (nsm : MockNsm)
      (now_ms : ℤ) (public_key user_data nonce : Option Bytes) (document : Bytes)
      → make_nsm readers pcrs module_id timestamp_ms digest certificate cabundle ≡ ok nsm
      → get_attestation_document nsm now_ms public_key user_data nonce ≡ ok document
      → parse_attestation_document document ≡ ok (parsed nsm now_ms public_key user_data nonce)
  parse-make_nsm pcrs module_id timestamp_ms digest certificate cabundle nsm now_ms public_key
        user_data nonce document made issued =
      parse-get_attestation_document nsm now_ms public_key user_data nonce document
        (Ensures-ok (λ (n : MockNsm). IsValue (dict (pcr_entries n.pcrs))) _ nsm
          (make_nsm-IsValue pcrs module_id timestamp_ms digest certificate cabundle) made)
        issued
