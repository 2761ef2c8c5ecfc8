-- ===== src/Dispatch.antt =====
-- _dispatch of src/tessera/http_server.py: from a parsed request line and its headers to an answer.
-- `split_target` is urlsplit and parse_qs; it is none where urlsplit raises.
pub mod Limits
pub mod Answers
pub mod Budget
pub mod Table
pub mod Signed
pub mod Wire
pub mod Numbered
pub mod Connection
use tessera_server.Common.{
  ℕ, String, Bool, true, false, ◌||◌, ◌&&◌, not, Option, none, some, List, [], ◌∷◌, length, take,
  ltb, ◌==◌, str_eq, if◌then◌else◌, Result, ok, raise, ◌>>=◌,
}
use tessera_server.Common.Int.{ℤ, pos, negsuc}
use tessera_server.Common.Text
use tessera_server.Bytes.{Bytes}
use tessera_server.Bytes.Numbers.{parse_int}
use tessera_server.Config.{TesseraConfig}
use tessera_server.Http.{Response, error, Uncaught, exception}
use tessera_server.RateLimit.Floats.{Float}
use tessera_server.RateLimit.{Limiter, allow}
use tessera_server.Content.{Query}
use tessera_server.Upload.{App}

-- MAX_REQUEST_LINE
abbrev pub max_request_line : ℕ
max_request_line = 4096

-- What a TesseraHandler has of a request: self.command, self.path, self.headers, self.rfile and
-- self._client_ip.
pub record HttpRequest : Type 0 where
  pub command : String
  pub target : String
  pub headers : String → Option String
  pub stream : Bytes
  pub client_ip : String

-- RequestContext, without the identity
pub record RequestContext : Type 0 where
  pub method : String
  pub path : String
  pub raw_target : String
  pub query : Query
  pub body : Bytes
  pub headers : String → Option String
  pub client_ip : String

-- match.groupdict()
abbrev pub Params : Type 0
Params = List (String × String)

-- Handler, with the clock
abbrev pub Handler : Type 0
Handler = RequestContext → Params → ℕ → App → Result Uncaught Response × App

-- One entry of ROUTES; the pattern gives the groups if it matches the path.
pub record Route : Type 0 where
  pub method : String
  pub pattern : String → Option Params
  pub handler : Handler

-- The fields of a TesseraApp that requests change.
pub record Server (W : Type 0) : Type 0 where
  pub app : App
  pub limiter : Limiter W

-- A request that the limiter is asked about.
pub record Accepted : Type 0 where
  pub path : String
  pub query : Query
  pub body_length : ℕ
  pub handler : Handler
  pub params : Params

-- How a request ends before the limiter is asked: an answer, or an exception.
abbrev pub Ended : Type 0
Ended = Result Uncaught Response

-- self.command in {"POST", "PUT", "PATCH"}
abbrev pub has_body : String → Bool
has_body command = str_eq command "POST" || str_eq command "PUT" || str_eq command "PATCH"

abbrev within_ceiling : ℕ → Option ℤ → Result Ended ℕ
within_ceiling ceiling none = raise (ok (error 400 "bad_content_length"))
within_ceiling ceiling (some (negsuc n)) = raise (ok (error 413 "too_large"))
within_ceiling ceiling (some (pos n)) =
    if ltb ceiling n then raise (ok (error 413 "too_large")) else ok n

abbrev declared_length : ℕ → Option String → Result Ended ℕ
declared_length ceiling none = raise (ok (error 411 "length_required"))
declared_length ceiling (some raw) = within_ceiling ceiling (parse_int raw)

-- The length of the body, as the request declares it.
unfoldable pub content_length : TesseraConfig → HttpRequest → Result Ended ℕ
content_length cfg req =
    if has_body req.command
    then declared_length cfg.max_request_bytes (req.headers "Content-Length")
    else ok 0

-- The loop over the routes, and what follows it; `path_exists` is that of the code.
unfoldable pub find_route : String → String → List Route → Bool → Result Ended (Handler × Params)
find_route command path [] path_exists =
    raise (ok (if path_exists then error 405 "method_not_allowed" else error 404 "not_found"))
find_route command path (r ∷ routes) path_exists =
    let other = find_route command path routes true in
    elim (r.pattern path) [
      | none ↦ find_route command path routes path_exists
      | some params ↦ if str_eq r.method command then ok (r.handler, params) else other
    ]

abbrev split_or_raise : Option (String × Query) → Result Ended (String × Query)
split_or_raise none = raise (raise exception)
split_or_raise (some parts) = ok parts

-- What a request came to, with the bytes that were read of its body.
pub record Outcome (W : Type 0) : Type 0 where
  pub answer : Result Uncaught Response
  pub server : Server W
  pub body_read : Bytes

abbrev pub ended : {W : Type 0} → Ended → Server W → Bytes → Outcome W
ended answer server body_read = record { answer = answer; server = server; body_read = body_read }

-- `except Exception` around the handler
abbrev pub answer_handler : Result Uncaught Response → Ended
answer_handler (ok response) = ok response
answer_handler (raise e) = ok (error 500 "internal_error")

module _ (split_target : String → Option (String × Query)) (cfg : TesseraConfig)
    (routes : List Route) where
  -- _dispatch up to the limiter
  unfoldable pub accept : HttpRequest → Result Ended Accepted
  unfolding content_length find_route
  accept req =
      if ltb max_request_line (Text.length req.target)
      then raise (ok (error 414 "uri_too_long"))
      else do
        (path, query) ← split_or_raise (split_target req.target)
        n ← content_length cfg req
        (handler, params) ← find_route req.command path routes false
        ok (record {
          path = path;
          query = query;
          body_length = n;
          handler = handler;
          params = params;
        })

  abbrev pub context_of : HttpRequest → Accepted → Bytes → RequestContext
  context_of req a body = record {
    method = req.command;
    path = a.path;
    raw_target = req.target;
    query = a.query;
    body = body;
    headers = req.headers;
    client_ip = req.client_ip;
  }

  -- The last `try` block.
  unfoldable pub run_handler :
      {W : Type 0} → HttpRequest → Accepted → Bytes → ℕ → Server W → Outcome W
  run_handler req a body now server =
      let (answer, app) = a.handler (context_of req a body) a.params now server.app in
      ended (answer_handler answer) (record server { app = app }) body

  -- _dispatch behind the limiter
  unfoldable pub read_and_run : {W : Type 0} → HttpRequest → Accepted → ℕ → Server W → Outcome W
  unfolding run_handler
  read_and_run req a now server =
      if has_body req.command
      then (let body = take a.body_length req.stream in
          if not (length body == a.body_length)
          then ended (ok (error 400 "short_body")) server body
          else run_handler req a body now server)
      else run_handler req a [] now server

  -- _dispatch, given what its call of the limiter came to: an exception of that call leaves it, since
  -- it stands in no `try` block.
  unfoldable pub dispatch_on :
      {W : Type 0} → HttpRequest → ℕ → Server W → Result Uncaught (Bool × Limiter W) → Outcome W
  unfolding accept read_and_run
  dispatch_on req now server called = elim (accept req) [
    | raise answer ↦ ended answer server []
    | ok a ↦ elim called [
      | raise e ↦ ended (raise e) server []
      | ok (allowed, limiter) ↦
          let server' = record server { limiter = limiter } in
          if allowed
          then read_and_run req a now server'
          else ended (ok (error 429 "rate_limited")) server' []
    ]
  ]

  -- _dispatch, at the monotonic time `tick` and the time `now`, with no other thread in `allow`
  unfoldable pub dispatch : {W : Type 0} → Float W → HttpRequest → W → ℕ → Server W → Outcome W
  unfolding allow dispatch_on
  dispatch f req tick now server =
      dispatch_on req now server (ok (allow f server.limiter req.client_ip tick))
