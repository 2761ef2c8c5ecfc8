-- ===== src/Routes/Consistent/Handlers.antt =====
-- The handlers behind the signed routes of src/tessera/http_server.py, on tables that are consistent.
use tessera_server.Common.{
  ℕ, ◌≤◌, ◌≡◌, refl, String, ◌&&◌, not, some, List, Result, ok, arith, ◌==◌, All,
}
use tessera_server.Common.Table.Laws.{All-map, fetch_one-All, fetch_one-holds}
use tessera_server.Bytes.{Bytes}
use tessera_server.Config.{TesseraConfig}
use tessera_server.Hydro.{HydroFault, HydroLib}
use tessera_server.Json.{Loaded}
use tessera_server.Db.{Db, Model, is_deleted}
use tessera_server.Social.Request.{require_visible_model}
use tessera_server.Admin.{log_action}
use tessera_server.Store.{Blob, put}
use tessera_server.Store.Reads.{get-put_keeps, get-put_filed}
use tessera_server.Upload.{App, new_model}
use tessera_server.Upload.Cases.{KeptByPut, KeptByInsert, handle_upload-keeps}
use tessera_server.Routes.Kept.{IsKept, IsKeptByWrites}
use tessera_server.Routes.Consistent.{HasFiles, IsSound}
use tessera_server.Routes.Consistent.Models.{act_on-IsSound, file_report-IsSound}
use tessera_server.Routes.Consistent.Votes.{record_favourite-IsSound, cast_vote-IsSound}
use tessera_server.Routes.Consistent.Inserted.{insert-IsSound}

-- A model that is found has an id that has been given out.
found_given :
    (db : Db) (id : ℕ) (m : Model)
    → All (λ r. r.id ≤ db.last_id) db.models
    → require_visible_model db id ≡ some m
    → id ≤ db.last_id
unfolding require_visible_model
found_given db id m given found =
    let p = λ (r : Model). r.id == id && not (is_deleted r.visibility) in
    let low = fetch_one-All p (λ r. r.id ≤ db.last_id) db.models m given found in
    let holds = fetch_one-holds p db.models m found in ground arith

pub IsSound-IsKeptByWrites : (blobs : List Blob) → IsKeptByWrites (IsSound blobs)
unfolding log_action
IsSound-IsKeptByWrites blobs = record {
  by_vote = λ db id voter value now m found h.
      cast_vote-IsSound blobs db id voter value now (found_given db id m h.ids_given found) h;
  by_favourite = λ db id owner on now h. record_favourite-IsSound blobs db id owner on now h;
  by_report = λ cfg db key q now h. file_report-IsSound blobs cfg db key q now h;
  by_action = λ db row q key now h. act_on-IsSound blobs db row q now h;
}

-- The tables and the blobs of the server.
abbrev pub IsSoundApp : App → Type 0
IsSoundApp app = IsSound app.blobs app.db

module _ (hasher : Bytes → Result HydroFault Bytes) where
  put-HasFiles :
      (content : Bytes) (blobs blobs' : List Blob) (digest : String)
      → put hasher content blobs ≡ ok (digest, blobs')
      → (m : Model) → HasFiles blobs m
      → HasFiles blobs' m
  put-HasFiles content blobs blobs' digest e m ((a, x), (b, y)) = (
    (a, get-put_keeps hasher content blobs blobs' digest m.model_hash a e x),
    (b, get-put_keeps hasher content blobs blobs' digest m.thumb_hash b e y),
  )

  put-IsSound : KeptByPut IsSoundApp hasher
  put-IsSound app content blobs digest e h = record {
    ids_given = h.ids_given;
    ids_keyed = h.ids_keyed;
    hashes_keyed = h.hashes_keyed;
    votes_given = h.votes_given;
    votes_keyed = h.votes_keyed;
    favourites_keyed = h.favourites_keyed;
    reports_keyed = h.reports_keyed;
    files =
        All-map (HasFiles app.blobs) (HasFiles blobs)
          (put-HasFiles content app.blobs blobs digest e) app.db.models h.files;
    tallied = h.tallied;
  }

  new_row-IsSound : (key : String) (now : ℕ) → KeptByInsert IsSoundApp hasher key now
  new_row-IsSound key now app e blobs blobs' model_hash thumb_hash r s new h =
      let (c, model_read) = get-put_filed hasher e.model app.blobs blobs model_hash r in
      let kept = get-put_keeps hasher e.thumb blobs blobs' thumb_hash model_hash c s model_read in
      insert-IsSound blobs' app.db (new_model app.db e key model_hash thumb_hash now) refl refl refl
        refl new ((c, kept), get-put_filed hasher e.thumb blobs blobs' thumb_hash s) h

pub IsSound-IsKept :
    (lib : HydroLib) (loads : Bytes → Loaded) (cfg : TesseraConfig)
    → IsKept lib loads cfg IsSoundApp
IsSound-IsKept lib loads cfg = record {
  by_nonces = λ app nonces h. h;
  by_upload = λ body key now app h.
      handle_upload-keeps IsSoundApp _ key now (put-IsSound _) (new_row-IsSound _ key now) loads cfg
        body app h;
  by_writes = λ app. IsSound-IsKeptByWrites app.blobs;
}
