-- ===== src/Routes/Healthy.antt =====
-- The tables and the blob directory under the handlers of the signed routes of
-- src/tessera/http_server.py.
use tessera_server.Common.{◌≤◌}
use tessera_server.Bytes.{Bytes}
use tessera_server.Config.{TesseraConfig}
use tessera_server.Hydro.{HydroLib}
use tessera_server.Json.{Loaded}
use tessera_server.Store.{total_bytes}
use tessera_server.Upload.{App}
use tessera_server.Upload.Cases.{handle_upload-keeps}
use tessera_server.Upload.Limits.{handle_upload_disk}
use tessera_server.Store.Addressed.{IsAddressed, put-IsAddressed}
use tessera_server.Routes.Consistent.Handlers.{IsSoundApp, IsSound-IsKept}
use tessera_server.Routes.Kept.{IsKept, constant-IsKeptByWrites, both-IsKept, blob_hasher}

module _ (lib : HydroLib) (loads : Bytes → Loaded) (cfg : TesseraConfig) where
  -- Within the ceiling of the configuration on the bytes of all blobs.
  abbrev pub HasRoom : App → Type 0
  HasRoom app = total_bytes app.blobs ≤ cfg.max_total_disk_bytes

  HasRoom-IsKept : IsKept lib loads cfg HasRoom
  HasRoom-IsKept = record {
    by_nonces = λ app nonces h. h;
    by_upload = λ body key now app h. handle_upload_disk _ loads cfg body key now app h;
    by_writes = λ app. constant-IsKeptByWrites (HasRoom app);
  }

  abbrev pub IsNamed : App → Type 0
  IsNamed app = IsAddressed (blob_hasher lib loads cfg) app.blobs

  IsNamed-IsKept : IsKept lib loads cfg IsNamed
  IsNamed-IsKept = record {
    by_nonces = λ app nonces h. h;
    by_upload = λ body key now app h.
        handle_upload-keeps IsNamed _ key now
          (λ w content blobs digest e g.
            put-IsAddressed (blob_hasher lib loads cfg) content w.blobs blobs digest e g)
          (λ w e blobs blobs' m t r s new g. g) loads cfg body app h;
    by_writes = λ app. constant-IsKeptByWrites (IsNamed app);
  }

  abbrev pub IsStored : App → Type 0
  IsStored app = IsNamed app × HasRoom app

  -- The tables are consistent, every file is named by the hash of its content, and there is no more
  -- in the files than the ceiling.
  abbrev pub IsHealthy : App → Type 0
  IsHealthy app = IsSoundApp app × IsStored app

  pub IsHealthy-IsKept : IsKept lib loads cfg IsHealthy
  IsHealthy-IsKept =
      both-IsKept lib loads cfg IsSoundApp IsStored (IsSound-IsKept lib loads cfg)
        (both-IsKept lib loads cfg IsNamed HasRoom IsNamed-IsKept HasRoom-IsKept)
