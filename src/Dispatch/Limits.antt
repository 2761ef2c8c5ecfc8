-- ===== src/Dispatch/Limits.antt =====
-- What _dispatch of src/tessera/http_server.py lets through to a handler, and what it reads.
use tessera_server.Common.{
  ℕ, zero, suc, ◌≤◌, ◌≡◌, ◌⊎◌, inl, inr, refl, sym, subst, ◌∙◌, String, Bool, true, false, Option,
  some, List, [], ◌∷◌, Result, ok, raise, arith, length, take, ltb, ◌==◌, str_eq, eq_iff,
  Bool-cases, Option-cases, Result-cases,
}
use tessera_server.Common.Int.{pos, negsuc}
use tessera_server.Common.Text
use tessera_server.Bytes.{Bytes}
use tessera_server.Bytes.Numbers.{parse_int}
use tessera_server.Config.{TesseraConfig}
use tessera_server.Http.{error}
use tessera_server.RateLimit.Floats.{Float}
use tessera_server.RateLimit.{allow}
use tessera_server.Content.{Query}
use tessera_server.Dispatch.{
  dispatch_on, max_request_line, HttpRequest, Route, Handler, Params, Server, Accepted, Ended,
  Outcome, ended, has_body, content_length, find_route, accept, context_of, answer_handler,
  run_handler, read_and_run, dispatch,
}

-- One of the routes has the method and matches the path, with these groups and this handler.
abbrev pub IsRouted : String → String → Handler → Params → List Route → Type 0
IsRouted command path handler params [] = ⊥
IsRouted command path handler params (r ∷ routes) =
    ((r.method ≡ command) × (r.pattern path ≡ some params) × (r.handler ≡ handler))
    ⊎ IsRouted command path handler params routes

-- The length of the body is the one declared, and within the ceiling; without a body it is 0.
abbrev pub IsDeclared : TesseraConfig → HttpRequest → ℕ → Type 0
IsDeclared cfg req n =
    (n ≤ cfg.max_request_bytes)
    × (((has_body req.command ≡ false) × (n ≡ 0))
        ⊎ ((raw : String) × (has_body req.command ≡ true)
            × (req.headers "Content-Length" ≡ some raw)
            × (parse_int raw ≡ some (pos n))))

find_route-IsRouted :
    (command path : String) (routes : List Route) (path_exists : Bool) (h : Handler)
    (params : Params)
    → find_route command path routes path_exists ≡ ok (h, params)
    → IsRouted command path h params routes
unfolding find_route
find_route-IsRouted command path [] path_exists h params e = absurd (ground arith)
find_route-IsRouted command path (r ∷ routes) path_exists h params e =
    elim (Option-cases (r.pattern path)) [
      | inl p ↦ inr (find_route-IsRouted command path routes path_exists h params (ground arith))
      | inr (groups, p) ↦ elim (Bool-cases (str_eq r.method command)) [
        | inl same ↦ inl (ground (arith, eq_iff r.method command), ground arith, ground arith)
        | inr other ↦ inr (find_route-IsRouted command path routes true h params (ground arith))
      ]
    ]

content_length-IsDeclared :
    (cfg : TesseraConfig) (req : HttpRequest) (n : ℕ)
    → content_length cfg req ≡ ok n
    → IsDeclared cfg req n
unfolding content_length
content_length-IsDeclared cfg req n e = elim (Bool-cases (has_body req.command)) [
  | inr plain ↦ (ground arith, inl (plain, ground arith))
  | inl body ↦ elim (Option-cases (req.headers "Content-Length")) [
    | inl absent ↦ absurd (ground arith)
    | inr (raw, given) ↦ elim (Option-cases (parse_int raw)) [
      | inl bad ↦ absurd (ground arith)
      | inr (pos k, read) ↦ (ground arith, inr (raw, body, given, ground arith))
      | inr (negsuc k, read) ↦ absurd (ground arith)
    ]
  ]
]

module _ (split_target : String → Option (String × Query)) (cfg : TesseraConfig)
    (routes : List Route) where
  -- What is true of a request that the limiter is asked about.
  abbrev pub IsAccepted : HttpRequest → Accepted → Type 0
  IsAccepted req a =
      (Text.length req.target ≤ max_request_line)
      × (split_target req.target ≡ some (a.path, a.query))
      × IsDeclared cfg req a.body_length
      × IsRouted req.command a.path a.handler a.params routes

  IsGood : HttpRequest → Result Ended Accepted → Type 0
  IsGood req (ok a) = IsAccepted req a
  IsGood req (raise x) = Unit {0}

  accept_lem :
      (req : HttpRequest) (parts : String × Query) (n : ℕ) (found : Handler × Params)
      → ltb max_request_line (Text.length req.target) ≡ false
      → split_target req.target ≡ some parts
      → content_length cfg req ≡ ok n
      → find_route req.command parts.0 routes false ≡ ok found
      → accept split_target cfg routes req
        ≡ ok (record {
          path = parts.0;
          query = parts.1;
          body_length = n;
          handler = found.0;
          params = found.1;
        })
  unfolding accept
  accept_lem req parts n found short split declared routed =
      rw (short, split, accept) (rw (declared, accept) (rw (routed, accept) refl))

  pub accept-IsAccepted :
      (req : HttpRequest) (a : Accepted)
      → accept split_target cfg routes req ≡ ok a
      → IsAccepted req a
  unfolding accept IsGood
  accept-IsAccepted req a e = elim (Bool-cases (ltb max_request_line (Text.length req.target))) [
    | inl long ↦ absurd (ground arith)
    | inr short ↦ elim (Option-cases (split_target req.target)) [
      | inl bad ↦ absurd (ground arith)
      | inr (parts, split) ↦ elim (Result-cases (content_length cfg req)) [
        | inl (x, refused) ↦ absurd (ground arith)
        | inr (n, declared) ↦ elim (Result-cases (find_route req.command parts.0 routes false)) [
          | inl (x, lost) ↦ absurd (ground arith)
          | inr (found, routed) ↦
              subst (IsGood req)
                (sym (accept_lem req parts n found short split declared routed) ∙ e)
                (
                  ground arith,
                  split,
                  content_length-IsDeclared cfg req n declared,
                  find_route-IsRouted req.command parts.0 routes false found.0 found.1 routed,
                )
        ]
      ]
    ]
  ]

  -- The request was handed to its handler, with the body that it declares: the first bytes of the
  -- stream. The answer is the handler's, or 500, and the state is what the handler left.
  abbrev pub IsHandled :
      {W : Type 0} → Float W → HttpRequest → W → ℕ → Server W → Outcome W → Type 0
  IsHandled f req tick now server o =
      (a : Accepted) × IsAccepted req a
      × ((allow f server.limiter req.client_ip tick).0 ≡ true)
      × (length o.body_read ≡ a.body_length)
      × (o.body_read ≡ take a.body_length req.stream)
      × (o.answer
          ≡ answer_handler
              (a.handler (context_of split_target cfg routes req a o.body_read) a.params now
                server.app).0)
      × (o.server.app
          ≡ (a.handler (context_of split_target cfg routes req a o.body_read) a.params now
              server.app).1)

  -- The request did not reach a handler.
  abbrev pub IsRefused : {W : Type 0} → Float W → HttpRequest → W → Server W → Outcome W → Type 0
  IsRefused f req tick server o =
      (o.server.app ≡ server.app)
      × ((o.body_read ≡ [])
          ⊎ (((allow f server.limiter req.client_ip tick).0 ≡ true)
              × (length o.body_read ≤ cfg.max_request_bytes)))

  pub length-take_le : (n : ℕ) (xs : Bytes) → length (take n xs) ≤ n
  length-take_le zero xs = omega arith
  length-take_le (suc n) [] = omega arith
  length-take_le (suc n) (x ∷ xs) = omega (arith, length-take_le n xs)

  pub read_and_run_cases :
      {W : Type 0} (req : HttpRequest) (a : Accepted) (now : ℕ) (server : Server W)
      → IsDeclared cfg req a.body_length
      → (read_and_run split_target cfg routes req a now server
          ≡ ended (ok (error 400 "short_body")) server (take a.body_length req.stream))
        ⊎ ((length (take a.body_length req.stream) ≡ a.body_length)
            × (read_and_run split_target cfg routes req a now server
                ≡ run_handler split_target cfg routes req a
                    (take a.body_length req.stream)
                    now
                    server))
  unfolding read_and_run
  read_and_run_cases req a now server (fits, declared) = elim (Bool-cases (has_body req.command)) [
    | inr plain ↦
        let none_declared : a.body_length ≡ 0 = ground arith in
        inr (rw none_declared (refl, rw plain refl))
    | inl body ↦ elim (Bool-cases (length (take a.body_length req.stream) == a.body_length)) [
      | inr short ↦ inl (rw (body, read_and_run) (rw short refl))
      | inl full ↦ inr (ground arith, rw (body, read_and_run) (rw full refl))
    ]
  ]

  pub dispatch-ended :
      {W : Type 0} (f : Float W) (req : HttpRequest) (tick : W) (now : ℕ) (server : Server W)
      (x : Ended)
      → accept split_target cfg routes req ≡ raise x
      → dispatch split_target cfg routes f req tick now server ≡ ended x server []
  unfolding dispatch dispatch_on
  dispatch-ended f req tick now server x e = rw (e, dispatch_on) refl

  abbrev pub charged_server : {W : Type 0} → Float W → HttpRequest → W → Server W → Server W
  charged_server f req tick server = record server {
    limiter = (allow f server.limiter req.client_ip tick).1;
  }

  pub dispatch_over :
      {W : Type 0} (f : Float W) (req : HttpRequest) (tick : W) (now : ℕ) (server : Server W)
      (a : Accepted)
      → accept split_target cfg routes req ≡ ok a
      → (allow f server.limiter req.client_ip tick).0 ≡ false
      → dispatch split_target cfg routes f req tick now server
        ≡ ended (ok (error 429 "rate_limited")) (charged_server f req tick server) []
  unfolding dispatch dispatch_on
  dispatch_over f req tick now server a e over = rw (e, dispatch_on) (rw over refl)

  pub dispatch_under :
      {W : Type 0} (f : Float W) (req : HttpRequest) (tick : W) (now : ℕ) (server : Server W)
      (a : Accepted)
      → accept split_target cfg routes req ≡ ok a
      → (allow f server.limiter req.client_ip tick).0 ≡ true
      → dispatch split_target cfg routes f req tick now server
        ≡ read_and_run split_target cfg routes req a now (charged_server f req tick server)
  unfolding dispatch dispatch_on
  dispatch_under f req tick now server a e under = rw (e, dispatch_on) (rw under refl)

  -- Every request either leaves the tables and the blobs alone, with nothing read of its body unless
  -- the limiter let it through, and then no more than the ceiling; or its target has at most 4096
  -- characters, a route has its method and path, its declared length keeps to the ceiling, the
  -- limiter let it through, and its handler ran on exactly the declared number of bytes.
  pub dispatch_guarded :
      {W : Type 0} (f : Float W) (req : HttpRequest) (tick : W) (now : ℕ) (server : Server W)
      → IsRefused f req tick server (dispatch split_target cfg routes f req tick now server)
        ⊎ IsHandled f req tick now server (dispatch split_target cfg routes f req tick now server)
  unfolding run_handler
  dispatch_guarded f req tick now server =
      elim (Result-cases (accept split_target cfg routes req)) [
        | inl (x, e) ↦ inl (rw (dispatch-ended f req tick now server x e) (refl, inl refl))
        | inr (a, e) ↦
            let (short, split, declared, routed) = accept-IsAccepted req a e in
            elim (Bool-cases (allow f server.limiter req.client_ip tick).0) [
              | inr over ↦ inl (rw (dispatch_over f req tick now server a e over) (refl, inl refl))
              | inl under ↦
                  elim (read_and_run_cases req a now (charged_server f req tick server) declared) [
                    | inl cut ↦ inl (
                        rw (dispatch_under f req tick now server a e under, cut)
                          (
                            refl,
                            inr (
                              under,
                              omega (arith, length-take_le a.body_length req.stream, declared.0),
                            ),
                          ))
                    | inr (full, ran) ↦ inr (
                        rw (dispatch_under f req tick now server a e under, ran)
                          (a, (short, split, declared, routed), under, full, refl, refl, refl))
                  ]
            ]
      ]
