-- ===== src/Dispatch/Table.antt =====
-- ROUTES of src/tessera/http_server.py, as the three handler modules fill it, in the order in which
-- make_server imports them.
use Prim.Native.Char.{code}
use Prim.Native.String.{◌++◌ as append}
use tessera_server.Common.{
  String, ◌&&◌, ◌||◌, Option, none, some, List, [], ◌∷◌, leb, ◌==◌, str_eq, if◌then◌else◌, raise,
}
use tessera_server.Common.Text
use tessera_server.Bytes.{Bytes}
use tessera_server.Bytes.Numbers.{digit}
use tessera_server.Bytes.Numbers.Digits.{is_digit}
use tessera_server.Config.{TesseraConfig}
use tessera_server.Hydro.{HydroLib}
use tessera_server.Json.{Loaded}
use tessera_server.Http.{exception}
use tessera_server.Signing.{SignedRequest}
use tessera_server.Content.Browse.{handle_browse}
use tessera_server.Content.Blobs.{Column, model_column, thumb_column, serve_blob}
use tessera_server.Routes.{
  Endpoint, upload, vote, favourite, favourites, report, admin_reports, admin_action, serve,
}
use tessera_server.Dispatch.{RequestContext, Params, Handler, Route}

-- A pattern without groups, between ^ and $; $ also matches in front of a last newline.
abbrev pub literal : String → String → Option Params
literal text path = if str_eq path text || str_eq path (append text "\n") then some [] else none

-- What follows the prefix.
pub after_prefix : String → String → Option String
after_prefix String.[] path = some path
after_prefix (String.◌∷◌ c s) String.[] = none
after_prefix (String.◌∷◌ c s) (String.◌∷◌ d t) =
    let rest = after_prefix s t in if code c == code d then rest else none

-- The text without its last character if that is a newline.
pub without_newline : String → String
without_newline String.[] = String.[]
without_newline (String.◌∷◌ c String.[]) =
    if code c == 10 then String.[] else String.◌∷◌ c String.[]
without_newline (String.◌∷◌ c (String.◌∷◌ d s)) = String.◌∷◌ c (without_newline (String.◌∷◌ d s))

-- (?P<model_id>\d{1,18})$
unfoldable pub numbered_rest : String → Option Params
unfolding without_newline digit
numbered_rest rest =
    let raw = without_newline rest in
    if Text.all is_digit raw && leb 1 (Text.length raw) && leb (Text.length raw) 18
    then some (("model_id", raw) ∷ [])
    else none

-- A prefix and a number.
unfoldable pub numbered : String → String → Option Params
unfolding after_prefix numbered_rest
numbered prefix path = elim (after_prefix prefix path) [
  | none ↦ none
  | some rest ↦ numbered_rest rest
]

-- What verify_signed_request and the handlers get of the context.
abbrev pub signed_of : RequestContext → SignedRequest
signed_of ctx = record {
  method = ctx.method;
  path = ctx.raw_target;
  headers = ctx.headers;
  query = ctx.query;
  body = ctx.body;
}

module _ (lib : HydroLib) (loads : Bytes → Loaded) (cfg : TesseraConfig) where
  -- The wrapper of signed_route
  abbrev pub signed_handler : Endpoint → Handler
  signed_handler endpoint ctx params now app = serve lib loads cfg endpoint (signed_of ctx) now app

  abbrev pub browse_handler : Handler
  browse_handler ctx params now app = (handle_browse cfg ctx.query app.db, app)

  -- handle_model and handle_thumb; params["model_id"] is the only group
  abbrev pub blob_handler : Column → Handler
  blob_handler column ctx [] now app = (raise exception, app)
  blob_handler column ctx ((name, raw) ∷ _) now app = (serve_blob app raw column, app)

  abbrev signed_post : String → Endpoint → Route
  signed_post path endpoint = record {
    method = "POST";
    pattern = literal path;
    handler = signed_handler endpoint;
  }

  abbrev signed_get : String → Endpoint → Route
  signed_get path endpoint = record {
    method = "GET";
    pattern = literal path;
    handler = signed_handler endpoint;
  }

  -- ROUTES
  abbrev pub all_routes : List Route
  all_routes =
      signed_post "/vote" vote
      ∷ signed_post "/favourite" favourite
      ∷ signed_get "/favourites" favourites
      ∷ signed_post "/report" report
      ∷ signed_get "/admin/reports" admin_reports
      ∷ signed_post "/admin/action" admin_action
      ∷ signed_post "/upload" upload
      ∷ record { method = "GET"; pattern = literal "/browse"; handler = browse_handler }
      ∷ record { method = "GET"; pattern = numbered "/model/"; handler = blob_handler model_column }
      ∷ record { method = "GET"; pattern = numbered "/thumb/"; handler = blob_handler thumb_column }
      ∷ []
