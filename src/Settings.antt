-- ===== src/Settings.antt =====
-- feature_store/config.py: the validators of `Settings`, on values that pydantic has read as texts and
-- integers. A ValidationError lists all errors; the model keeps that of the first field. The
-- patterns are matched on texts that `strip` has left without a newline at their end.
pub mod Region
pub mod WellFormed
use confidential_ml_feature.Prelude.{
  ℕ, Bool, true, false, ◌&&◌, ◌||◌, not, Option, none, some, [], ◌∷◌, leb, ◌==◌, ◌=ₜ◌,
  if◌then◌else◌, Text, length, Result, ok, err, ◌>>=◌, ◌>>◌, require, ℤ, pos, negsuc,
}
use confidential_ml_feature.Python.Codes.{codes}
use confidential_ml_feature.Python.Strip.{strip, is_empty}

-- What Python provides: `\d` of a pattern, `str.upper`, and the scheme and the netloc of `urlparse`,
-- with `none` for the ValueError that it raises.
pub record Texts : Type 0 where
  pub is_decimal : ℕ → Bool
  pub upper : Text → Text
  pub urlparse : Text → Option (Text × Text)

pub data Error : Type 0 where
  aws_region dynamodb_table_name dynamodb_endpoint kms_key_id : Error
  enclave_cid enclave_port log_level local_endpoint : Error

pub record Settings : Type 0 where
  pub aws_region : Text
  pub dynamodb_table_name : Text
  pub dynamodb_endpoint : Option Text
  pub kms_key_id : Text
  pub enclave_cid : ℤ
  pub enclave_port : ℤ
  pub log_level : Text
  pub use_mock_enclave : Bool

-- [a-z]
unfoldable pub is_lower : ℕ → Bool
is_lower c = leb 97 c && leb c 122

-- [0-9]
unfoldable pub is_digit : ℕ → Bool
is_digit c = leb 48 c && leb c 57

-- [a-z0-9-]
unfoldable pub is_region_char : ℕ → Bool
is_region_char c = is_lower c || is_digit c || c == 45

-- [A-Za-z0-9_.-]
unfoldable pub is_table_char : ℕ → Bool
is_table_char c = leb 65 c && leb c 90 || is_lower c || is_digit c || c == 95 || c == 46 || c == 45

unfoldable pub all_are : (ℕ → Bool) → Text → Bool
all_are p [] = true
all_are p (c ∷ s) = let rest = all_are p s in p c && rest

unfoldable pub starts_with : Text → Text → Bool
starts_with [] s = true
starts_with (c ∷ p) [] = false
starts_with (c ∷ p) (d ∷ s) = let rest = starts_with p s in c == d && rest

-- `normalize_dynamodb_endpoint`, on a text.
abbrev pub normalize_dynamodb_endpoint : Option Text → Option Text
normalize_dynamodb_endpoint none = none
normalize_dynamodb_endpoint (some value) =
    if is_empty (strip value) then none else some (strip value)

-- `normalized not in _LOG_LEVELS`
abbrev pub is_log_level : Text → Bool
is_log_level s =
    s =ₜ codes "DEBUG"
    || s =ₜ codes "INFO"
    || s =ₜ codes "WARNING"
    || s =ₜ codes "ERROR"
    || s =ₜ codes "CRITICAL"

-- parsed.scheme in {"http", "https"} and parsed.netloc
unfoldable pub is_http : Option (Text × Text) → Bool
is_http none = false
is_http (some (scheme, netloc)) =
    (scheme =ₜ codes "http" || scheme =ₜ codes "https") && not (is_empty netloc)

module _ (texts : Texts) where
  -- \d+$
  unfoldable pub matches_number : Text → Bool
  unfolding all_are
  matches_number s = not (is_empty s) && all_are texts.is_decimal s

  -- [a-z0-9-]*-\d+$
  unfoldable pub matches_zone : Text → Bool
  unfolding matches_number is_region_char
  matches_zone [] = false
  matches_zone (c ∷ s) =
      let rest = matches_zone s in c == 45 && matches_number s || is_region_char c && rest

  -- ^[a-z]{2}-[a-z0-9-]+-\d+$
  unfoldable pub matches_region : Text → Bool
  unfolding matches_zone is_lower
  matches_region (a ∷ b ∷ c ∷ d ∷ s) =
      is_lower a && is_lower b && c == 45 && is_region_char d && matches_zone s
  matches_region _ = false

  unfoldable pub validate_aws_region : Text → Result Error Text
  validate_aws_region value =
      if is_empty (strip value)
      then err aws_region
      else if not (matches_region (strip value))
      then err aws_region
      else ok (strip value)

  unfoldable pub validate_dynamodb_endpoint : Option Text → Result Error (Option Text)
  unfolding is_http
  validate_dynamodb_endpoint none = ok none
  validate_dynamodb_endpoint (some value) =
      if is_http (texts.urlparse value) then ok (some value) else err dynamodb_endpoint

  unfoldable pub validate_log_level : Text → Result Error Text
  validate_log_level value = do
    require (is_log_level (texts.upper (strip value))) log_level
    ok (texts.upper (strip value))

-- ^[A-Za-z0-9_.-]{3,255}$
unfoldable pub matches_table_name : Text → Bool
unfolding all_are is_table_char
matches_table_name s = leb 3 (length s) && leb (length s) 255 && all_are is_table_char s

unfoldable pub validate_table_name : Text → Result Error Text
validate_table_name value = do
  require (matches_table_name (strip value)) dynamodb_table_name
  ok (strip value)

unfoldable pub validate_kms_key_id : Text → Result Error Text
validate_kms_key_id value = do require (not (is_empty (strip value))) kms_key_id; ok (strip value)

-- value <= 2 raises.
unfoldable pub validate_enclave_cid : ℤ → Result Error ℤ
validate_enclave_cid (pos n) = if leb n 2 then err enclave_cid else ok (pos n)
validate_enclave_cid (negsuc n) = err enclave_cid

-- 1 <= value <= 65535
unfoldable pub validate_enclave_port : ℤ → Result Error ℤ
validate_enclave_port (pos n) = if leb 1 n && leb n 65535 then ok (pos n) else err enclave_port
validate_enclave_port (negsuc n) = err enclave_port

-- The endpoint is not empty here, since the first validator makes `none` of an empty one.
abbrev pub is_local_https : Option Text → Bool
is_local_https none = false
is_local_https (some endpoint) = starts_with (codes "https://localhost") endpoint

unfoldable pub validate_local_endpoint_compatibility : Settings → Result Error Settings
validate_local_endpoint_compatibility settings = do
  require (not (is_local_https settings.dynamodb_endpoint)) local_endpoint
  ok settings

-- `Settings()`, for the values of its fields: their validators, and the one of the whole.
unfoldable pub make_settings : Texts → Settings → Result Error Settings
unfolding validate_aws_region validate_table_name validate_dynamodb_endpoint validate_kms_key_id
    validate_enclave_cid validate_enclave_port validate_log_level
    validate_local_endpoint_compatibility
make_settings texts raw = do
  region ← validate_aws_region texts raw.aws_region
  table_name ← validate_table_name raw.dynamodb_table_name
  endpoint ← validate_dynamodb_endpoint texts (normalize_dynamodb_endpoint raw.dynamodb_endpoint)
  key_id ← validate_kms_key_id raw.kms_key_id
  cid ← validate_enclave_cid raw.enclave_cid
  port ← validate_enclave_port raw.enclave_port
  level ← validate_log_level texts raw.log_level
  validate_local_endpoint_compatibility (record {
    aws_region = region;
    dynamodb_table_name = table_name;
    dynamodb_endpoint = endpoint;
    kms_key_id = key_id;
    enclave_cid = cid;
    enclave_port = port;
    log_level = level;
    use_mock_enclave = raw.use_mock_enclave;
  })
