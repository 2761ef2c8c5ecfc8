-- ===== src/Config.antt =====
-- src/tessera/config.py: the resolved configuration.
pub mod Load
use tessera_server.Common.{ℕ, String, Bool, false, List, [], ◌∷◌}

-- The fields of TesseraConfig that are not paths, addresses or floating-point numbers.
pub record TesseraConfig : Type 0 where
  pub proxy_protocol : Bool
  pub sign_context : String
  pub replay_window_secs : ℕ
  pub max_model_bytes : ℕ
  pub max_thumb_bytes : ℕ
  pub max_request_bytes : ℕ
  pub max_total_disk_bytes : ℕ
  pub uploads_per_key_per_day : ℕ
  pub global_uploads_per_hour : ℕ
  pub ip_burst : ℕ
  pub ip_slots : ℕ
  pub global_burst : ℕ
  pub browse_page_size : ℕ
  pub browse_max_page_size : ℕ
  pub report_autohide_threshold : ℕ
  pub admin_keys : List String
  pub report_reasons : List String

-- REPORT_REASONS
abbrev pub default_report_reasons : List String
default_report_reasons = "gore" ∷ "sexual" ∷ "hate" ∷ "stolen" ∷ "spam" ∷ "other" ∷ []

-- TesseraConfig()
abbrev pub default_config : TesseraConfig
default_config = record {
  proxy_protocol = false;
  sign_context = "tessera1";
  replay_window_secs = 300;
  max_model_bytes = 1048576;
  max_thumb_bytes = 65536;
  max_request_bytes = 2097152;
  max_total_disk_bytes = 2147483648;
  uploads_per_key_per_day = 8;
  global_uploads_per_hour = 240;
  ip_burst = 20;
  ip_slots = 512;
  global_burst = 120;
  browse_page_size = 20;
  browse_max_page_size = 60;
  report_autohide_threshold = 3;
  admin_keys = [];
  report_reasons = default_report_reasons;
}
