-- ===== src/Tests/Config.antt =====
-- Settings with blanks around their values, read by a Python that knows ASCII alone.
use confidential_ml_feature.Prelude.{◌≡◌, refl, leb, ◌&&◌, ◌=ₜ◌, false, some, pos, ok}
use confidential_ml_feature.Python.Codes.{codes}
use confidential_ml_feature.Python.Strip.{strip, lstrip}
use confidential_ml_feature.Settings.{
  Texts, Settings, make_settings, validate_aws_region, matches_region, is_lower, is_digit,
  is_region_char, matches_zone, matches_number, all_are, validate_table_name, matches_table_name,
  is_table_char, validate_dynamodb_endpoint, is_http, validate_kms_key_id, validate_enclave_cid,
  validate_enclave_port, validate_log_level, validate_local_endpoint_compatibility, starts_with,
}
use confidential_ml_feature.Settings.WellFormed.{IsWellFormed, make_settings-IsWellFormed}

abbrev texts : Texts
texts = record {
  is_decimal = λ c. leb 48 c && leb c 57;
  upper = λ s. s;
  urlparse = λ s. some (codes "http", codes "localhost:8000");
}

abbrev raw : Settings
raw = record {
  aws_region = codes " us-east-1 ";
  dynamodb_table_name = codes "table";
  dynamodb_endpoint = some (codes "http://localhost:8000 ");
  kms_key_id = codes "key";
  enclave_cid = pos 16;
  enclave_port = pos 5005;
  log_level = codes "INFO";
  use_mock_enclave = false;
}

abbrev settings : Settings
settings = record raw {
  aws_region = codes "us-east-1";
  dynamodb_endpoint = some (codes "http://localhost:8000");
}

validated : make_settings texts raw ≡ ok settings
unfolding make_settings validate_aws_region matches_region is_lower is_digit is_region_char
    matches_zone matches_number all_are validate_table_name matches_table_name is_table_char
    validate_dynamodb_endpoint is_http validate_kms_key_id validate_enclave_cid
    validate_enclave_port validate_log_level validate_local_endpoint_compatibility starts_with strip
    lstrip ◌=ₜ◌
validated = refl

make_settings-IsWellFormed_example : IsWellFormed texts settings
make_settings-IsWellFormed_example = make_settings-IsWellFormed texts raw settings validated
