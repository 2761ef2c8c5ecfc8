-- ===== src/Dispatch/Answers.antt =====
-- _dispatch of src/tessera/http_server.py answers.
use tessera_server.Common.{
  ℕ, ◌≡◌, ◌⊎◌, Result, Bool, inl, inr, refl, String, true, false, Option, some, List, [], ◌∷◌, ok,
  raise, arith, ltb, str_eq, Bool-cases, Option-cases, Result-cases,
}
use tessera_server.Common.Text
use tessera_server.Config.{TesseraConfig}
use tessera_server.Http.{error, Response, Uncaught}
use tessera_server.RateLimit.{Limiter}
use tessera_server.Content.{Query}
use tessera_server.Dispatch.{
  max_request_line, HttpRequest, Route, Server, Ended, content_length, find_route, accept, Accepted,
  ended, answer_handler, run_handler, read_and_run, dispatch_on,
}
use tessera_server.Dispatch.Limits.{IsDeclared, accept-IsAccepted, read_and_run_cases}

-- It is a response, and no exception.
abbrev pub IsAnswer : Ended → Type 0
IsAnswer answer = (r : Response) × (answer ≡ ok r)

content_length_raise :
    (cfg : TesseraConfig) (req : HttpRequest) (x : Ended)
    → content_length cfg req ≡ raise x
    → IsAnswer x
unfolding content_length
content_length_raise cfg req (ok r) e = (r, refl)
content_length_raise cfg req (raise y) e = absurd (ground arith)

find_route_raise :
    (command path : String) (routes : List Route) (path_exists : _) (x : Ended)
    → find_route command path routes path_exists ≡ raise x
    → IsAnswer x
unfolding find_route
find_route_raise command path [] path_exists (ok r) e = (r, refl)
find_route_raise command path [] path_exists (raise y) e = absurd (ground arith)
find_route_raise command path (r ∷ routes) path_exists x e = elim (Option-cases (r.pattern path)) [
  | inl p ↦ find_route_raise command path routes path_exists x (ground arith)
  | inr (groups, p) ↦ elim (Bool-cases (str_eq r.method command)) [
    | inl same ↦ absurd (ground arith)
    | inr other ↦ find_route_raise command path routes true x (ground arith)
  ]
]

answer_handler_lem : (answer : Ended) → IsAnswer (answer_handler answer)
answer_handler_lem (ok r) = (r, refl)
answer_handler_lem (raise e) = (_, refl)

module _ (split_target : String → Option (String × Query)) (cfg : TesseraConfig)
    (routes : List Route) where
  accept_raise :
      (req : HttpRequest) (parts : String × Query) (x : Ended)
      → split_target req.target ≡ some parts
      → accept split_target cfg routes req ≡ raise x
      → IsAnswer x
  unfolding accept
  accept_raise req parts x split e =
      elim (Bool-cases (ltb max_request_line (Text.length req.target))) [
        | inl long ↦ (error 414 "uri_too_long", ground arith)
        | inr short ↦ elim (Result-cases (content_length cfg req)) [
          | inl (y, refused) ↦
              let (r, q) = content_length_raise cfg req y refused in (r, ground arith)
          | inr (n, declared) ↦ elim (Result-cases (find_route req.command parts.0 routes false)) [
            | inl (y, lost) ↦
                let (r, q) = find_route_raise req.command parts.0 routes false y lost in
                (r, ground arith)
            | inr (found, routed) ↦ absurd (ground arith)
          ]
        ]
      ]

  read_and_run_answers :
      {W : Type 0} (req : HttpRequest) (a : Accepted) (now : ℕ) (server : Server W)
      → IsDeclared cfg req a.body_length
      → IsAnswer (read_and_run split_target cfg routes req a now server).answer
  unfolding run_handler
  read_and_run_answers req a now server declared =
      elim (read_and_run_cases split_target cfg routes req a now server declared) [
        | inl cut ↦ rw cut (_, refl)
        | inr (full, ran) ↦ rw ran (answer_handler_lem _)
      ]

  -- Whatever the routes and the handlers do, a request whose target urlsplit can read is answered,
  -- or its call of the limiter has raised an exception: that leaves the dispatcher, with nothing
  -- read of the body and the tables and blobs as they were.
  pub dispatch_answers :
      {W : Type 0} (req : HttpRequest) (now : ℕ) (server : Server W)
      (called : Result Uncaught (Bool × Limiter W)) (parts : String × Query)
      → split_target req.target ≡ some parts
      → IsAnswer (dispatch_on split_target cfg routes req now server called).answer
        ⊎ ((e : Uncaught) × (called ≡ raise e)
            × (dispatch_on split_target cfg routes req now server called
                ≡ ended (raise e) server []))
  unfolding dispatch_on
  dispatch_answers req now server called parts split =
      elim (Result-cases (accept split_target cfg routes req)) [
        | inl (x, e) ↦ inl (rw (e, dispatch_on) (accept_raise req parts x split e))
        | inr (a, e) ↦ elim (Result-cases called) [
          | inl (x, raised) ↦ inr (x, raised, rw (e, raised, dispatch_on) refl)
          | inr ((true, limiter), said) ↦
              let (short, read, declared, routed) =
                accept-IsAccepted split_target cfg routes req a e in
              inl (
                rw (e, said, dispatch_on)
                  (read_and_run_answers req a now (record server { limiter = limiter }) declared))
          | inr ((false, limiter), said) ↦ inl (rw (e, said, dispatch_on) (_, refl))
        ]
      ]
