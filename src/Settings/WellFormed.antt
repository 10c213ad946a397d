-- ===== src/Settings/WellFormed.antt =====
-- What the validators of `Settings` guarantee of the settings that they let through.
use mathlib.Core.Path.{subst}
use confidential_ml_feature.Prelude.{
  ℕ, ◌≤◌, ◌≡◌, refl, inl, inr, Bool, true, false, ◌&&◌, not, Option, none, some, arith, leb,
  Bool-cases, Text, length, ok, ◌>>=◌, require, Ensures, Ensures-bind, Ensures-ok, ℤ, pos, negsuc,
}
use confidential_ml_feature.Python.Codes.{codes}
use confidential_ml_feature.Python.Strip.{strip, is_empty}
use confidential_ml_feature.Settings.{
  Texts, Error, Settings, all_are, is_http, is_local_https, is_log_level, is_table_char,
  matches_table_name, starts_with, dynamodb_table_name, local_endpoint, kms_key_id, log_level,
  validate_aws_region, validate_table_name, validate_dynamodb_endpoint, validate_kms_key_id,
  validate_enclave_cid, validate_enclave_port, validate_log_level,
  validate_local_endpoint_compatibility, make_settings, normalize_dynamodb_endpoint,
}
use confidential_ml_feature.Settings.Region.{IsRegion, both, validate_aws_region-IsRegion}

-- What the settings are that the server runs on.
pub record IsWellFormed (texts : Texts) (s : Settings) : Type 0 where
  pub region : IsRegion texts s.aws_region
  pub table :
      (3 ≤ length s.dynamodb_table_name)
      × (length s.dynamodb_table_name ≤ 255)
      × (all_are is_table_char s.dynamodb_table_name ≡ true)
  pub endpoint :
      (url : Text)
      → s.dynamodb_endpoint ≡ some url
      → (is_http (texts.urlparse url) ≡ true)
        × (starts_with (codes "https://localhost") url ≡ false)
  pub key_id : is_empty s.kms_key_id ≡ false
  pub cid : (n : ℕ) × (s.enclave_cid ≡ pos n) × (3 ≤ n)
  pub port : (n : ℕ) × (s.enclave_port ≡ pos n) × (1 ≤ n) × (n ≤ 65535)
  pub level : is_log_level s.log_level ≡ true

-- A check that lets its value through.
require-eq-ok :
    (b : Bool) (x : Error) (v a : Text) → (require b x >>= λ u. ok v) ≡ ok a → (b ≡ true) × (v ≡ a)
require-eq-ok true x v a e = (refl, ground (arith, e))
require-eq-ok false x v a e = absurd (ground (arith, e))

validate_table_name-matches :
    (value name : Text)
    → validate_table_name value ≡ ok name
    → (3 ≤ length name) × (length name ≤ 255) × (all_are is_table_char name ≡ true)
unfolding validate_table_name matches_table_name
validate_table_name-matches value name e =
    let (h, same) =
      require-eq-ok (matches_table_name (strip value)) dynamodb_table_name (strip value) name e in
    let n = length (strip value) in
    let (bounds, chars) = both (leb 3 n && leb n 255) (all_are is_table_char (strip value)) h in
    let (low, high) = both (leb 3 n) (leb n 255) bounds in
    subst (λ t. (3 ≤ length t) × (length t ≤ 255) × (all_are is_table_char t ≡ true)) same
      (ground (arith, low), ground (arith, high), chars)

validate_dynamodb_endpoint-is_http :
    (texts : Texts) (value endpoint : Option Text)
    → validate_dynamodb_endpoint texts value ≡ ok endpoint
    → (url : Text) → endpoint ≡ some url
    → is_http (texts.urlparse url) ≡ true
unfolding validate_dynamodb_endpoint
validate_dynamodb_endpoint-is_http texts none endpoint e url u = absurd (ground (arith, e, u))
validate_dynamodb_endpoint-is_http texts (some value) endpoint e url u =
    elim (Bool-cases (is_http (texts.urlparse value))) [
      | inl h ↦ subst (λ t. is_http (texts.urlparse t) ≡ true) (ground (arith, h, e, u)) h
      | inr h ↦ absurd (ground (arith, h, e))
    ]

validate_enclave_cid-bound :
    (value cid : ℤ) → validate_enclave_cid value ≡ ok cid → (n : ℕ) × (cid ≡ pos n) × (3 ≤ n)
unfolding validate_enclave_cid
validate_enclave_cid-bound (pos n) cid e = elim (Bool-cases (leb n 2)) [
  | inl h ↦ absurd (ground (arith, h, e))
  | inr h ↦ (n, ground (arith, h, e), ground (arith, h))
]
validate_enclave_cid-bound (negsuc n) cid e = absurd (ground (arith, e))

validate_enclave_port-bounds :
    (value port : ℤ)
    → validate_enclave_port value ≡ ok port
    → (n : ℕ) × (port ≡ pos n) × (1 ≤ n) × (n ≤ 65535)
unfolding validate_enclave_port
validate_enclave_port-bounds (pos n) port e = elim (Bool-cases (leb 1 n && leb n 65535)) [
  | inl h ↦
      let (low, high) = both (leb 1 n) (leb n 65535) h in
      (n, ground (arith, h, e), ground (arith, low), ground (arith, high))
  | inr h ↦ absurd (ground (arith, h, e))
]
validate_enclave_port-bounds (negsuc n) port e = absurd (ground (arith, e))

validate_local_endpoint_compatibility-Ensures :
    (P : Settings → Type 0) (s : Settings)
    → (is_local_https s.dynamodb_endpoint ≡ false → P s)
    → Ensures P (validate_local_endpoint_compatibility s)
unfolding validate_local_endpoint_compatibility
validate_local_endpoint_compatibility-Ensures P s h = go (is_local_https s.dynamodb_endpoint) h
  where
    go : (b : Bool) → (b ≡ false → P s) → Ensures P (require (not b) local_endpoint >>= λ u. ok s)
    go true f = tt
    go false f = f refl

validate_kms_key_id-given :
    (value key : Text) → validate_kms_key_id value ≡ ok key → is_empty key ≡ false
unfolding validate_kms_key_id
validate_kms_key_id-given value key e =
    let (h, same) = require-eq-ok (not (is_empty (strip value))) kms_key_id (strip value) key e in
    subst (λ t. is_empty t ≡ false) same (ground (arith, h))

validate_log_level-is_log_level :
    (texts : Texts) (value level : Text)
    → validate_log_level texts value ≡ ok level
    → is_log_level level ≡ true
unfolding validate_log_level
validate_log_level-is_log_level texts value level e =
    let normalized = texts.upper (strip value) in
    let (h, same) = require-eq-ok (is_log_level normalized) log_level normalized level e in
    subst (λ t. is_log_level t ≡ true) same h

-- If `Settings()` lets the values through, then the settings are well formed: a region by the pattern,
-- a table name of 3 to 255 characters of the class, an endpoint that is http(s) and not
-- https://localhost, a key, a CID of 3 or more, a port from 1 to 65535, and one of the log levels.
pub make_settings-IsWellFormed :
    (texts : Texts) (raw s : Settings) → make_settings texts raw ≡ ok s → IsWellFormed texts s
unfolding make_settings
make_settings-IsWellFormed texts raw s e =
    Ensures-ok (IsWellFormed texts) (make_settings texts raw) s
      (Ensures-bind (IsWellFormed texts) (validate_aws_region texts raw.aws_region) _ (λ region r.
        Ensures-bind (IsWellFormed texts) (validate_table_name raw.dynamodb_table_name) _ (λ name t.
          Ensures-bind (IsWellFormed texts)
            (validate_dynamodb_endpoint texts (normalize_dynamodb_endpoint raw.dynamodb_endpoint)) _
            (λ endpoint h.
              Ensures-bind (IsWellFormed texts) (validate_kms_key_id raw.kms_key_id) _ (λ key k.
                Ensures-bind (IsWellFormed texts) (validate_enclave_cid raw.enclave_cid) _ (λ cid c.
                  Ensures-bind (IsWellFormed texts) (validate_enclave_port raw.enclave_port) _
                    (λ port p.
                      Ensures-bind (IsWellFormed texts) (validate_log_level texts raw.log_level) _
                        (λ level l.
                          validate_local_endpoint_compatibility-Ensures (IsWellFormed texts) _ (λ f.
                            record {
                              region = validate_aws_region-IsRegion texts raw.aws_region region r;
                              table = validate_table_name-matches raw.dynamodb_table_name name t;
                              endpoint = λ url u. (
                                validate_dynamodb_endpoint-is_http texts
                                    (normalize_dynamodb_endpoint raw.dynamodb_endpoint) endpoint h
                                    url u,
                                subst (λ o. is_local_https o ≡ false) u f,
                              );
                              key_id = validate_kms_key_id-given raw.kms_key_id key k;
                              cid = validate_enclave_cid-bound raw.enclave_cid cid c;
                              port = validate_enclave_port-bounds raw.enclave_port port p;
                              level = validate_log_level-is_log_level texts raw.log_level level l;
                            })))))))))
      e
