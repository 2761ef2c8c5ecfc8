-- ===== src/ReportTool/Interleaved.antt =====
-- The daemon of src/tessera/http_server.py and tools/tessera-reports on one database: requests and
-- commands in any order, each in a transaction of its own.
use tessera_server.Common.{
  ℕ, ◌≤◌, ◌≡◌, ◌⊎◌, refl, sym, subst, String, false, Option, some, List, [], ◌∷◌, ok, inl, inr,
  ◌==◌,
}
use tessera_server.Common.Int.{pos}
use tessera_server.Common.Table.{exists_where}
use tessera_server.Common.Table.Laws.{fetch_one-All}
use tessera_server.Store.Addressed.{HashesTo, get-IsAddressed}
use tessera_server.Bytes.{Bytes}
use tessera_server.Bytes.Numbers.{parse_int}
use tessera_server.Config.{TesseraConfig}
use tessera_server.Hydro.{HydroLib}
use tessera_server.Json.{Loaded}
use tessera_server.Http.{error}
use tessera_server.RateLimit.Floats.{Float}
use tessera_server.Db.{Db, Model, is_deleted, find_model, max_sql_int}
use tessera_server.Admin.Bans.{is_live}
use tessera_server.Content.{Query}
use tessera_server.Content.Blobs.{Column, digest_of, serve_blob, blob_response}
use tessera_server.Store
use tessera_server.Upload.{App}
use tessera_server.Routes.Kept.{IsKept, IsKeptByWrites}
use tessera_server.Routes.Deleted.{IsGone, IsGone-IsKept}
use tessera_server.Routes.Rows.{HasRow, HasRow-IsKept, Reads-IsKept}
use tessera_server.Routes.Consistent.{HasFiles}
use tessera_server.Routes.Kept.{blob_hasher}
use tessera_server.Routes.Healthy.{IsHealthy, IsHealthy-IsKept}
use tessera_server.Dispatch.{HttpRequest, Server}
use tessera_server.Dispatch.Signed.{served, served-keeps, not_served}
use tessera_server.Content.Blobs.Answered.{
  served_parts, served_or_gone, digest_of_same, found_served,
}
use tessera_server.ReportTool.{Command, run_command}
use tessera_server.ReportTool.Agrees.{run_command_cases}

pub data Event (W : Type 0) : Type 0 where
  request : HttpRequest → W → ℕ → Event W
  command : Command → ℕ → Event W

-- What a command keeps, from what the writes of the handlers keep, and a change of the bans.
command-keeps :
    (P : Db → Type 0)
    → IsKeptByWrites P
    → ((db : Db) (bans : _) → P db → P (record db { bans = bans }))
    → (c : Command) (now : ℕ) (db : Db) → P db
    → P (run_command c now db).1
command-keeps P w lifted c now db h = elim (run_command_cases c now db) [
  | inl same ↦ subst P (sym same) h
  | inr (inl (q, row, done)) ↦ subst P (sym done) (w.by_action db row q _ now h)
  | inr (inr (key, done)) ↦ subst P (sym done) (lifted db _ h)
]

module _ (lib : HydroLib) (loads : Bytes → Loaded) (cfg : TesseraConfig)
    (split_target : String → Option (String × Query)) {W : Type 0} (f : Float W) where
  unfoldable pub step : Event W → Server W → Server W
  step (request req tick now) server =
      (served lib loads cfg split_target f req tick now server).server
  step (command c now) server = record server {
    app = record server.app { db = (run_command c now server.app.db).1 };
  }

  -- The server and the database after requests and commands in the order of the list.
  unfoldable pub run_events : List (Event W) → Server W → Server W
  run_events [] server = server
  run_events (e ∷ events) server = run_events events (step e server)

  module _ (P : App → Type 0) (kept : IsKept lib loads cfg P)
      (lifted : (app : App) (bans : _)
        → P app
        → P (record app { db = record app.db { bans = bans } })) where
    step-keeps : (e : Event W) (server : Server W) → P server.app → P (step e server).app
    unfolding step
    step-keeps (request req tick now) server h =
        served-keeps lib loads cfg split_target f P kept req tick now server h
    step-keeps (command c now) server h =
        command-keeps (λ db. P (record server.app { db = db })) (kept.by_writes server.app)
          (λ db bans k. lifted (record server.app { db = db }) bans k) c now server.app.db h

    events_keep :
        (events : List (Event W)) (server : Server W)
        → P server.app
        → P (run_events events server).app
    unfolding run_events
    events_keep [] server h = h
    events_keep (e ∷ events) server h = events_keep events (step e server) (step-keeps e server h)

  -- The tables and the blob directory stay consistent with each other whatever requests arrive,
  -- signed or not, and whatever commands of tessera-reports are run between them: ids and hashes are
  -- unique, every vote is on an id that was given out, the counters of every model are the sums over
  -- its votes, the primary keys of votes, favourites and reports hold, both files of every model are
  -- in the store, every file is named by the hash of its content, and the files hold no more bytes
  -- than the ceiling.
  pub gallery-IsHealthy :
      (events : List (Event W)) (server : Server W)
      → IsHealthy lib loads cfg server.app
      → IsHealthy lib loads cfg (run_events events server).app
  gallery-IsHealthy =
      events_keep (IsHealthy lib loads cfg) (IsHealthy-IsKept lib loads cfg) (λ app bans h. h)

  -- From such tables and files, GET /model and GET /thumb answer 200 after any requests and commands
  -- for the id of every model that is then in the tables and not deleted, with a content whose hash is
  -- the digest in its row.
  pub gallery_live :
      (events : List (Event W)) (server : Server W) (id : ℕ) (raw : String) (column : Column)
      (m : Model)
      → IsHealthy lib loads cfg server.app
      → parse_int raw ≡ some (pos id)
      → id ≤ max_sql_int
      → find_model id (run_events events server).app.db.models ≡ some m
      → is_deleted m.visibility ≡ false
      → (content : Bytes) × HashesTo (blob_hasher lib loads cfg) content (digest_of column m)
        × (serve_blob (run_events events server).app raw column ≡ ok (blob_response content))
  gallery_live events server id raw column m h read fits found live =
      let after = gallery-IsHealthy events server h in
      let (content, stored, answered) =
        found_served _ id raw column m read fits found live
          (fetch_one-All (λ (r : Model). r.id == id) (HasFiles _) _ m after.0.files found) in
      (content, get-IsAddressed (blob_hasher lib loads cfg) _ _ content after.1.0 stored, answered)

  -- Once no model with an id that has been given out still exists, GET /model and GET /thumb of that
  -- id answer 404 after any requests and commands, an approval and the lifting of a ban included.
  pub gallery_deleted :
      (id : ℕ) (raw : String) (column : Column) (events : List (Event W)) (server : Server W)
      → parse_int raw ≡ some (pos id)
      → id ≤ max_sql_int
      → exists_where (is_live id) server.app.db.models ≡ false
      → id ≤ server.app.db.last_id
      → serve_blob (run_events events server).app raw column ≡ ok (error 404 "not_found")
  gallery_deleted id raw column events server read fits gone given =
      not_served (run_events events server).app id raw column read fits
        (events_keep (λ app. IsGone id app.db) (IsGone-IsKept lib loads cfg id) (λ app bans h. h)
          events server (gone, given)).0

  -- A path of GET /model or GET /thumb that has been answered with a content is answered with the
  -- same content or 404 after any requests and commands, as the `immutable` of its Cache-Control
  -- header says.
  pub gallery_immutable :
      (events : List (Event W)) (server : Server W) (raw : String) (column : Column)
      (content : Bytes)
      → serve_blob server.app raw column ≡ ok (blob_response content)
      → (serve_blob (run_events events server).app raw column ≡ ok (blob_response content))
        ⊎ (serve_blob (run_events events server).app raw column ≡ ok (error 404 "not_found"))
  gallery_immutable events server raw column content answered =
      let (id, m, read, small, found, filed) =
        served_parts server.app raw column content answered in
      let (m', found', same_model, same_thumb) =
        events_keep (λ app. HasRow id m.model_hash m.thumb_hash app.db.models)
          (HasRow-IsKept id m.model_hash m.thumb_hash lib loads cfg) (λ app bans h. h) events server
          (m, found, refl, refl) in
      let filed' =
        events_keep (λ app. Store.get (digest_of column m) app.blobs ≡ ok content)
          (Reads-IsKept lib loads cfg (digest_of column m) content) (λ app bans h. h) events server
          filed in
      served_or_gone _ raw column id m' content read small found'
        (rw (digest_of_same column m m' same_model same_thumb) filed')
