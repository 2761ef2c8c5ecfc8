-- ===== src/Dispatch/Numbered.antt =====
-- The downloads of src/tessera/handlers_content.py behind their pattern: no number that the pattern
-- lets through is too large for the database.
use tessera_server.Common.{
  ℕ, ◌≤◌, ◌<◌, ◌≡◌, inl, inr, String, true, some, [], ◌∷◌, ok, arith, Option-cases,
}
use tessera_server.Common.Int.{pos}
use tessera_server.Common.Text
use tessera_server.Bytes.Numbers.{parse_int}
use tessera_server.Bytes.Numbers.Digits.{is_digit, parse_int_lem}
use tessera_server.Config.{TesseraConfig}
use tessera_server.Hydro.{HydroLib}
use tessera_server.Bytes.{Bytes}
use tessera_server.Json.{Loaded}
use tessera_server.Db.{max_sql_int, find_model}
use tessera_server.Content.Blobs.{Column, answer_blob, serve_blob}
use tessera_server.Upload.{App}
use tessera_server.Dispatch.{RequestContext, Params}
use tessera_server.Dispatch.Table.{
  after_prefix, without_newline, numbered_rest, numbered, blob_handler,
}

numbered_rest_cases :
    (rest : String) (params : Params)
    → numbered_rest rest ≡ some params
    → (raw : String) × (params ≡ ("model_id", raw) ∷ [])
      × (Text.all is_digit raw ≡ true)
      × (1 ≤ Text.length raw)
      × (Text.length raw ≤ 18)
unfolding numbered_rest
numbered_rest_cases rest params h =
    (without_newline rest, ground arith, ground arith, ground arith, ground arith)

numbered_cases :
    (prefix path : String) (params : Params)
    → numbered prefix path ≡ some params
    → (rest : String) × (numbered_rest rest ≡ some params)
unfolding numbered
numbered_cases prefix path params h = elim (Option-cases (after_prefix prefix path)) [
  | inl e ↦ absurd (ground arith)
  | inr (rest, e) ↦ (rest, ground arith)
]

serve_blob_ok :
    (app : App) (raw : String) (column : Column) (n : ℕ)
    → parse_int raw ≡ some (pos n)
    → n ≤ max_sql_int
    → serve_blob app raw column ≡ ok (answer_blob (find_model n app.db.models) column app.blobs)
unfolding serve_blob
serve_blob_ok app raw column n read fits = ground arith

-- A path that the pattern of GET /model or GET /thumb matches has a number below 10^18 in it, which
-- is the id that the handler looks up; it never raises.
pub blob_handler_answers :
    (lib : HydroLib) (loads : Bytes → Loaded) (cfg : TesseraConfig) (prefix path : String)
    (params : Params) (column : Column) (ctx : RequestContext) (now : ℕ) (app : App)
    → numbered prefix path ≡ some params
    → (id : ℕ) × (id < 1000000000000000000)
      × ((blob_handler lib loads cfg column ctx params now app).0
          ≡ ok (answer_blob (find_model id app.db.models) column app.blobs))
blob_handler_answers lib loads cfg prefix path params column ctx now app h =
    let (rest, e) = numbered_cases prefix path params h in
    let (raw, only, digits, some_digit, fits) = numbered_rest_cases rest params e in
    let (n, read, lt) = parse_int_lem raw 18 digits some_digit fits (omega arith) in
    (n, lt, rw only (serve_blob_ok app raw column n read (omega arith)))
