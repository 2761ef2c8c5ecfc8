-- ===== src/Dispatch/Signed.antt =====
-- The whole server of src/tessera/http_server.py: its dispatcher over its own routes.
use Prim.Native.String.{◌++◌ as append}
use tessera_server.Common.Text
use tessera_server.Common.{
  Bool, eq_iff, ℕ, ◌≤◌, ◌≡◌, ◌⊎◌, inl, inr, refl, sym, ap, subst, ◌∙◌, String, true, false, Option,
  none, some, List, [], ◌∷◌, ok, arith, All, ◌==◌, str_eq, Bool-cases,
}
use tessera_server.Common.Int.{pos}
use tessera_server.Common.Table.{exists_where}
use tessera_server.Bytes.{Bytes}
use tessera_server.Bytes.Numbers.{parse_int}
use tessera_server.Config.{TesseraConfig}
use tessera_server.Hydro.{HydroLib}
use tessera_server.Json.{Loaded}
use tessera_server.Http.{error}
use tessera_server.Replay.{Nonce}
use tessera_server.Signing.{SignedIdentity, SignedRequest, verify_signed_request}
use tessera_server.RateLimit.Floats.{Float}
use tessera_server.Db.{Model, is_deleted, find_model, max_sql_int}
use tessera_server.Content.{Query}
use tessera_server.Content.Blobs.{Column, model_column, thumb_column, answer_blob, serve_blob}
use tessera_server.Admin.Bans.{is_live}
use tessera_server.Upload.{App}
use tessera_server.Routes.{
  Endpoint, upload, vote, favourite, favourites, report, admin_reports, admin_action, needs_admin,
  with_nonces, serve,
}
use tessera_server.Routes.Guarded.{serve_guarded}
use tessera_server.Routes.Deleted.{IsGone, IsGone-IsKept}
use tessera_server.Routes.Kept.{IsKept, serve-keeps}
use tessera_server.Dispatch.{
  HttpRequest, RequestContext, Params, Handler, Route, Server, Outcome, context_of, dispatch,
}
use tessera_server.Dispatch.Limits.{IsRouted, dispatch_guarded}
use tessera_server.Dispatch.Budget.{dispatch_all}
use tessera_server.Dispatch.Table.{signed_handler, blob_handler, all_routes, literal}

-- No row with the id exists, or the first one is deleted.
find_model_gone :
    (id : ℕ) (models : List Model)
    → exists_where (is_live id) models ≡ false
    → (find_model id models ≡ none)
      ⊎ ((m : Model) × (find_model id models ≡ some m) × (is_deleted m.visibility ≡ true))
find_model_gone id [] h = inl refl
find_model_gone id (m ∷ models) h = elim (Bool-cases (m.id == id)) [
  | inl e ↦ inr (m, ground arith, ground arith)
  | inr e ↦ rw e (find_model_gone id models (ground arith))
]

pub not_served :
    (app : App) (id : ℕ) (raw : String) (column : Column)
    → parse_int raw ≡ some (pos id)
    → id ≤ max_sql_int
    → exists_where (is_live id) app.db.models ≡ false
    → serve_blob app raw column ≡ ok (error 404 "not_found")
unfolding serve_blob answer_blob
not_served app id raw column read fits gone = elim (find_model_gone id app.db.models gone) [
  | inl absent ↦ ground arith
  | inr (m, found, dead) ↦ ground arith
]

-- The method and the path of each signed route.
abbrev method_of : Endpoint → String
method_of favourites = "GET"
method_of admin_reports = "GET"
method_of _ = "POST"

abbrev path_of : Endpoint → String
path_of upload = "/upload"
path_of vote = "/vote"
path_of favourite = "/favourite"
path_of favourites = "/favourites"
path_of report = "/report"
path_of admin_reports = "/admin/reports"
path_of admin_action = "/admin/action"

-- The request is one for the route: $ also matches in front of a last newline.
abbrev pub IsFor : Endpoint → String → String → Type 0
IsFor endpoint command path =
    (command ≡ method_of endpoint)
    × ((path ≡ path_of endpoint) ⊎ (path ≡ append (path_of endpoint) "\n"))

-- path.startswith("/admin/")
abbrev pub is_admin_path : String → Bool
is_admin_path path = str_eq (Text.take 7 path) "/admin/"

admin_paths :
    (endpoint : Endpoint)
    → (is_admin_path (path_of endpoint) ≡ needs_admin endpoint)
      × (is_admin_path (append (path_of endpoint) "\n") ≡ needs_admin endpoint)
admin_paths upload = (refl, refl)
admin_paths vote = (refl, refl)
admin_paths favourite = (refl, refl)
admin_paths favourites = (refl, refl)
admin_paths report = (refl, refl)
admin_paths admin_reports = (refl, refl)
admin_paths admin_action = (refl, refl)

-- The routes that ask for an administrator are those below /admin/.
IsFor-needs_admin :
    (endpoint : Endpoint) (command path : String)
    → IsFor endpoint command path
    → is_admin_path path ≡ needs_admin endpoint
IsFor-needs_admin endpoint command path (method, inl e) = rw e (admin_paths endpoint).0
IsFor-needs_admin endpoint command path (method, inr e) = rw e (admin_paths endpoint).1

literal_cases :
    (text path : String) (params : Params)
    → literal text path ≡ some params
    → (path ≡ text) ⊎ (path ≡ append text "\n")
literal_cases text path params h = elim (Bool-cases (str_eq path text)) [
  | inl e ↦ inl ((eq_iff path text).0 e)
  | inr e ↦ elim (Bool-cases (str_eq path (append text "\n"))) [
    | inl n ↦ inr ((eq_iff path (append text "\n")).0 n)
    | inr n ↦ absurd (ground arith)
  ]
]

module _ (lib : HydroLib) (loads : Bytes → Loaded) (cfg : TesseraConfig) where
  abbrev IsReading : Handler → Type 0
  IsReading h =
      (ctx : RequestContext) (params : Params) (now : ℕ) (app : App)
      → (h ctx params now app).1 ≡ app

  -- The handler is behind a signature, for the method and the paths of one endpoint, or only reads.
  abbrev IsGuarded : Route → Type 0
  IsGuarded r =
      ((endpoint : Endpoint) × (r.handler ≡ signed_handler lib loads cfg endpoint)
        × ((path : String) (params : Params)
            → r.pattern path ≡ some params
            → IsFor endpoint r.method path))
      ⊎ IsReading r.handler

  blob_handler_reads : (column : Column) → IsReading (blob_handler lib loads cfg column)
  blob_handler_reads column ctx [] now app = refl
  blob_handler_reads column ctx (p ∷ ps) now app = refl

  signed-IsGuarded :
      (endpoint : Endpoint)
      → IsGuarded (record {
        method = method_of endpoint;
        pattern = literal (path_of endpoint);
        handler = signed_handler lib loads cfg endpoint;
      })
  signed-IsGuarded endpoint =
      inl (endpoint, refl, λ path params h. (refl, literal_cases (path_of endpoint) path params h))

  all_routes-IsGuarded : All IsGuarded (all_routes lib loads cfg)
  all_routes-IsGuarded = (
    signed-IsGuarded vote,
    (
      signed-IsGuarded favourite,
      (
        signed-IsGuarded favourites,
        (
          signed-IsGuarded report,
          (
            signed-IsGuarded admin_reports,
            (
              signed-IsGuarded admin_action,
              (
                signed-IsGuarded upload,
                (
                  inr (λ ctx params now app. refl),
                  (
                    inr (blob_handler_reads model_column),
                    (inr (blob_handler_reads thumb_column), tt),
                  ),
                ),
              ),
            ),
          ),
        ),
      ),
    ),
  )

  IsRouted-IsGuarded :
      (command path : String) (h : Handler) (params : Params) (routes : List Route)
      → All IsGuarded routes
      → IsRouted command path h params routes
      → ((endpoint : Endpoint) × (h ≡ signed_handler lib loads cfg endpoint)
          × IsFor endpoint command path)
        ⊎ IsReading h
  IsRouted-IsGuarded command path h params [] a r = absurd r
  IsRouted-IsGuarded command path h params (x ∷ routes) a (inl (method, matched, same)) = elim a.0 [
    | inl (endpoint, signed, fits) ↦ inl (
      endpoint,
      sym same ∙ signed,
      subst (λ (m : String). IsFor endpoint m path) method (fits path params matched),
    )
    | inr reads ↦ inr (subst IsReading same reads)
  ]
  IsRouted-IsGuarded command path h params (x ∷ routes) a (inr later) =
      IsRouted-IsGuarded command path h params routes a.1 later

  module _ (split_target : String → Option (String × Query)) {W : Type 0} (f : Float W) where
    abbrev pub served : HttpRequest → W → ℕ → Server W → Outcome W
    served = dispatch split_target cfg (all_routes lib loads cfg) f

    -- What the signature of a request is verified over, if the dispatcher found this query and read
    -- this body.
    abbrev pub as_signed : HttpRequest → Query → Bytes → SignedRequest
    as_signed req query body = record {
      method = req.command;
      path = req.target;
      headers = req.headers;
      query = query;
      body = body;
    }

    served_cases :
        (req : HttpRequest) (tick : W) (now : ℕ) (server : Server W)
        → ((served req tick now server).server.app ≡ server.app)
          ⊎ ((endpoint : Endpoint) × (path : String) × (query : Query) × (split_target req.target
                ≡ some (path, query))
              × IsFor endpoint req.command path
              × ((served req tick now server).server.app
                  ≡ (serve lib loads cfg endpoint
                      (as_signed req query (served req tick now server).body_read)
                      now
                      server.app).1))
    served_cases req tick now server =
        elim (dispatch_guarded split_target cfg (all_routes lib loads cfg) f req tick now server) [
          | inl (same, reads) ↦ inl same
          | inr (a, (short, split, declared, routed), under, full, first, answered, left) ↦
              elim (IsRouted-IsGuarded req.command a.path a.handler a.params
                (all_routes lib loads cfg) all_routes-IsGuarded routed) [
                  | inl (endpoint, signed, fits) ↦
                      let ctx =
                        context_of split_target cfg (all_routes lib loads cfg) req a
                          (served req tick now server).body_read in
                      inr (
                        endpoint,
                        a.path,
                        a.query,
                        split,
                        fits,
                        left ∙ ap (λ (h : Handler). (h ctx a.params now server.app).1) signed,
                      )
                  | inr reads ↦ inl (left ∙ reads _ a.params now server.app)
                ]
        ]

    -- Whatever request arrives, it changes nothing but the nonce table, or it has the method and the
    -- path of a signed route, its signature verified over the method, the target and the body that
    -- was read, and the key is a configured administrator's if the path begins with /admin/.
    pub unsigned_powerless :
        (req : HttpRequest) (tick : W) (now : ℕ) (server : Server W)
        → ((nonces : List Nonce) × ((served req tick now server).server.app
              ≡ with_nonces server.app nonces))
          ⊎ ((endpoint : Endpoint) × (path : String) × (query : Query) × (id : SignedIdentity)
              × (split_target req.target ≡ some (path, query))
              × IsFor endpoint req.command path
              × ((verify_signed_request lib cfg
                    (as_signed req query (served req tick now server).body_read)
                    now
                    server.app.db.nonces).0
                  ≡ ok id)
              × ((is_admin_path path ≡ false)
                  ⊎ (exists_where (λ k. str_eq k id.key_hex) cfg.admin_keys ≡ true)))
    unsigned_powerless req tick now server = elim (served_cases req tick now server) [
      | inl same ↦ inl (server.app.db.nonces, same)
      | inr (endpoint, path, query, split, fits, left) ↦
          elim (serve_guarded lib loads cfg endpoint
            (as_signed req query (served req tick now server).body_read) now server.app) [
              | inl only ↦ inl (_, left ∙ only)
              | inr (id, verified, inl public, ran) ↦ inr (
                endpoint,
                path,
                query,
                id,
                split,
                fits,
                verified,
                inl (IsFor-needs_admin endpoint req.command path fits ∙ public),
              )
              | inr (id, verified, inr listed, ran) ↦
                  inr (endpoint, path, query, id, split, fits, verified, inr listed)
            ]
    ]

    module _ (P : App → Type 0) (kept : IsKept lib loads cfg P) where
      pub served-keeps :
          (req : HttpRequest) (tick : W) (now : ℕ) (server : Server W)
          → P server.app
          → P (served req tick now server).server.app
      served-keeps req tick now server h = elim (served_cases req tick now server) [
        | inl same ↦ subst P (sym same) h
        | inr (endpoint, path, query, split, fits, left) ↦
            subst P (sym left) (serve-keeps lib loads cfg P kept endpoint _ now server.app h)
      ]

      -- What the handlers keep is kept by any list of requests, signed or not.
      pub served_all-keeps :
          (requests : List (HttpRequest × W × ℕ)) (server : Server W)
          → P server.app
          → P (dispatch_all split_target cfg (all_routes lib loads cfg) f requests server).1.app
      unfolding dispatch_all
      served_all-keeps [] server h = h
      served_all-keeps ((req, tick, now) ∷ rest) server h =
          served_all-keeps rest (served req tick now server).server
            (served-keeps req tick now server h)

    -- Once no model with an id that has been given out still exists, GET /model and GET /thumb of
    -- that id answer 404 after any requests, signed or not.
    pub deleted_not_served :
        (id : ℕ) (raw : String) (column : Column) (requests : List (HttpRequest × W × ℕ))
        (server : Server W)
        → parse_int raw ≡ some (pos id)
        → id ≤ max_sql_int
        → exists_where (is_live id) server.app.db.models ≡ false
        → id ≤ server.app.db.last_id
        → serve_blob
            (dispatch_all split_target cfg (all_routes lib loads cfg) f requests server).1.app
            raw
            column
          ≡ ok (error 404 "not_found")
    deleted_not_served id raw column requests server read fits gone given =
        not_served
          (dispatch_all split_target cfg (all_routes lib loads cfg) f requests server).1.app id raw
          column read fits
          (served_all-keeps (λ w. IsGone id w.db) (IsGone-IsKept lib loads cfg id) requests server
            (gone, given)).0
