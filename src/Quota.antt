-- ===== src/Quota.antt =====
-- src/tessera/quota.py: what an upload must pass.
use tessera_server.Common.{ℕ, ◌+◌, String, ◌&&◌, List, Result, ok, ◌>>◌, raise_if, leb, ltb, str_eq}
use tessera_server.Common.Table.{count_where}
use tessera_server.Config.{TesseraConfig}
use tessera_server.Db.{Db, is_banned}
use tessera_server.Store.{Blob, total_bytes}

-- QuotaError: the status and the code.
pub record QuotaError : Type 0 where
  pub status : ℕ
  pub code : String

abbrev pub day_seconds : ℕ
day_seconds = 86400

abbrev pub hour_seconds : ℕ
hour_seconds = 3600

-- created_at > now - DAY_SECONDS, written without a subtraction that could fall below zero
unfoldable pub uploads_today : Db → String → ℕ → ℕ
uploads_today db author_key now =
    count_where (λ m. str_eq m.author_key author_key && ltb now (m.created_at + day_seconds))
      db.models

unfoldable pub uploads_last_hour : Db → ℕ → ℕ
uploads_last_hour db now = count_where (λ m. ltb now (m.created_at + hour_seconds)) db.models

abbrev pub quota_error : ℕ → String → QuotaError
quota_error status code = record { status = status; code = code }

-- check_upload_allowed
unfoldable pub check_upload_allowed :
    TesseraConfig → Db → List Blob → String → ℕ → ℕ → Result QuotaError (Unit {0})
check_upload_allowed cfg db blobs author_key incoming_bytes now = do
  raise_if (is_banned db author_key) (quota_error 403 "banned")
  raise_if (ltb cfg.max_request_bytes incoming_bytes) (quota_error 413 "too_large")
  raise_if (leb cfg.uploads_per_key_per_day (uploads_today db author_key now))
      (quota_error 429 "daily_quota")
  raise_if (leb cfg.global_uploads_per_hour (uploads_last_hour db now))
      (quota_error 429 "global_rate")
  raise_if (ltb cfg.max_total_disk_bytes (total_bytes blobs + incoming_bytes))
      (quota_error 507 "disk_full")
  ok tt
