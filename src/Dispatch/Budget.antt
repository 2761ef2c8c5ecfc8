-- ===== src/Dispatch/Budget.antt =====
-- How much of bodies src/tessera/http_server.py reads, in arithmetic that rounds.
use tessera_server.Common.{
  ℕ, suc, ◌+◌, ◌*◌, ◌≤◌, ◌≡◌, refl, sym, inl, inr, String, Bool, true, false, Option, List, [], ◌∷◌,
  Result, ok, raise, arith, length, Bool-cases, Result-cases, if◌then◌else◌,
}
use tessera_server.Common.Int.{ℤ, pos, ◌+ℤ◌, ◌≤ℤ◌, +ℤ_parts}
use tessera_server.Config.{TesseraConfig}
use tessera_server.RateLimit.Floats.{Float, IsRounded}
use tessera_server.RateLimit.{allow, new_limiter}
use tessera_server.RateLimit.Budget.{
  InOrder-earlier, InOrder-until, allow_all, InOrder, new_limiter_bound,
}
use tessera_server.Content.{Query}
use tessera_server.Upload.{App}
use tessera_server.Dispatch.{
  HttpRequest, Route, Server, Accepted, Ended, accept, run_handler, dispatch,
}
use tessera_server.Dispatch.Limits.{
  accept-IsAccepted, dispatch-ended, dispatch_over, dispatch_under, read_and_run_cases,
  charged_server, length-take_le,
}

module _ (split_target : String → Option (String × Query)) (cfg : TesseraConfig)
    (routes : List Route) {W : Type 0} (f : Float W) where
  -- A list of requests, each with the two times at which it is dispatched: the number of body bytes
  -- that are read, and the server after them.
  unfoldable pub dispatch_all : List (HttpRequest × W × ℕ) → Server W → ℕ × Server W
  dispatch_all [] server = (0, server)
  dispatch_all ((req, tick, now) ∷ rest) server =
      let o = dispatch split_target cfg routes f req tick now server in
      let (count, server') = dispatch_all rest o.server in (length o.body_read + count, server')

  charge_of : Result Ended Accepted → HttpRequest → W → List (String × W) → List (String × W)
  charge_of (ok a) req tick later = (req.client_ip, tick) ∷ later
  charge_of (raise x) req tick later = later

  -- The requests of the list that the limiter is asked about.
  charges : List (HttpRequest × W × ℕ) → List (String × W)
  unfolding charge_of
  charges [] = []
  charges ((req, tick, now) ∷ rest) =
      charge_of (accept split_target cfg routes req) req tick (charges rest)

  length-charges :
      (requests : List (HttpRequest × W × ℕ)) → length (charges requests) ≤ length requests
  unfolding charges charge_of
  length-charges [] = omega arith
  length-charges ((req, tick, now) ∷ rest) =
      elim (Result-cases (accept split_target cfg routes req)) [
        | inl (x, e) ↦ rw e (omega (arith, length-charges rest))
        | inr (a, e) ↦ rw e (omega (arith, length-charges rest))
      ]

  more_roundings : (k m n : ℕ) → m ≤ n → k * m ≤ k * n
  more_roundings k m n h = grind arith

  -- A request that the limiter is asked about leaves the limiter as it was left by the question, and
  -- no more of its body is read than the ceiling, and nothing if it is not let through.
  dispatch_charged :
      (req : HttpRequest) (tick : W) (now : ℕ) (server : Server W) (a : Accepted)
      → accept split_target cfg routes req ≡ ok a
      → ((dispatch split_target cfg routes f req tick now server).server.limiter
          ≡ (allow f server.limiter req.client_ip tick).1)
        × (length (dispatch split_target cfg routes f req tick now server).body_read
            ≤ (if (allow f server.limiter req.client_ip tick).0 then cfg.max_request_bytes else 0))
  unfolding run_handler
  dispatch_charged req tick now server a e =
      elim (Bool-cases (allow f server.limiter req.client_ip tick).0) [
        | inr over ↦
            rw (dispatch_over split_target cfg routes f req tick now server a e over, over)
              (refl, omega arith)
        | inl under ↦
            let (short, read, declared, routed) =
              accept-IsAccepted split_target cfg routes req a e in
            let bound = length-take_le split_target cfg routes a.body_length req.stream in
            elim (read_and_run_cases split_target cfg routes req a now
              (charged_server split_target cfg routes f req tick server) declared) [
                | inl cut ↦
                    rw
                      (
                        dispatch_under split_target cfg routes f req tick now server a e under,
                        cut,
                        under,
                      )
                      (refl, omega (arith, bound, declared.0))
                | inr (full, ran) ↦
                    rw
                      (
                        dispatch_under split_target cfg routes f req tick now server a e under,
                        ran,
                        under,
                      )
                      (refl, omega (arith, bound, declared.0))
              ]
      ]

  one_more :
      (ceiling n count total : ℕ) (allowed : Bool)
      → n ≤ (if allowed then ceiling else 0)
      → total ≤ ceiling * count
      → n + total ≤ ceiling * ((if allowed then 1 else 0) + count)
  one_more ceiling n count total true h k = grind arith
  one_more ceiling n count total false h k = grind arith

  dispatch_all-charges :
      (requests : List (HttpRequest × W × ℕ)) (server : Server W)
      → (dispatch_all requests server).0
        ≤ cfg.max_request_bytes * (allow_all f (charges requests) server.limiter).0
  unfolding dispatch_all charges charge_of allow_all
  dispatch_all-charges [] server = omega arith
  dispatch_all-charges ((req, tick, now) ∷ rest) server =
      let o = dispatch split_target cfg routes f req tick now server in
      let later = dispatch_all-charges rest o.server in
      elim (Result-cases (accept split_target cfg routes req)) [
        | inl (x, e) ↦
            rw (e, dispatch-ended split_target cfg routes f req tick now server x e)
              (omega (arith, dispatch_all-charges rest server))
        | inr (a, e) ↦
            let (same, bound) = dispatch_charged req tick now server a e in
            rw e (
              one_more cfg.max_request_bytes (length o.body_read)
                (allow_all f (charges rest) (allow f server.limiter req.client_ip tick).1).0
                (dispatch_all rest o.server).0 (allow f server.limiter req.client_ip tick).0 bound
                (rw (sym same) later))
      ]

  module _ (unit : ℕ) (value : W → ℤ) where
    -- The requests are dispatched one after the other, from `from` on and before `until`.
    abbrev pub AreInOrder : W → List (HttpRequest × W × ℕ) → W → Type 0
    AreInOrder from [] until = value from ≤ℤ value until
    AreInOrder from ((req, tick, now) ∷ rest) until =
        (value from ≤ℤ value tick) × AreInOrder tick rest until

    charges-InOrder :
        (from : W) (requests : List (HttpRequest × W × ℕ)) (until : W)
        → AreInOrder from requests until
        → InOrder f unit value from (charges requests) until
    unfolding charges charge_of
    charges-InOrder from [] until o = o
    charges-InOrder from ((req, tick, now) ∷ rest) until o =
        elim (Result-cases (accept split_target cfg routes req)) [
          | inl (x, e) ↦ rw e (
              InOrder-earlier f unit value from tick (charges rest) until o.0
                (charges-InOrder tick rest until o.1))
          | inr (a, e) ↦ rw e (o.0, charges-InOrder tick rest until o.1)
        ]

    module _ (period : W) (global_burst err : ℕ) (span : W → W → ℤ)
        (r : IsRounded f period (f.of_nat global_burst) unit err value span) where
      let_through_bound :
          (slots burst : ℕ) (refill_secs : W) (from : W) (charged : List (String × W)) (until : W)
          → InOrder f unit value from charged until
          → pos (
              unit
              * (allow_all f charged (new_limiter f slots burst refill_secs global_burst period)).0)
            ≤ℤ (value (f.of_nat global_burst) +ℤ span from until) +ℤ pos (3 * err * length charged)
      unfolding allow_all
      let_through_bound slots burst refill_secs from [] until o =
          let tokens = value (f.of_nat global_burst) in
          omega (
            arith,
            r.span_nonneg from until o,
            r.burst_nonneg,
            +ℤ_parts tokens (span from until),
            +ℤ_parts (tokens +ℤ span from until) (pos (3 * err * 0)),
          )
      let_through_bound slots burst refill_secs from ((ip, now) ∷ rest) until o =
          let tokens = value (f.of_nat global_burst) in
          let cost = pos (3 * err * suc (length rest)) in
          omega (
            arith,
            new_limiter_bound f unit value period global_burst err span r slots burst refill_secs ip
                now rest until o.1,
            r.span_nonneg from now o.0,
            r.span_split from now until o.0 (InOrder-until f unit value now rest until o.1),
            +ℤ_parts tokens (span from until),
            +ℤ_parts (tokens +ℤ span from until) cost,
            +ℤ_parts tokens (span now until),
            +ℤ_parts (tokens +ℤ span now until) cost,
            +ℤ_parts (span from now) (span now until),
          )

      -- A daemon that has just started reads at most the request ceiling for each of a number of
      -- requests that, at `unit` for each, is worth no more than the global burst, the refills of the
      -- time from `from` to `until` and three roundings of each request, whatever requests are
      -- dispatched in that time, one after the other, and from how many addresses.
      pub read_bytes_bounded :
          (slots burst : ℕ) (refill_secs : W) (app : App) (from : W)
          (requests : List (HttpRequest × W × ℕ)) (until : W)
          → AreInOrder from requests until
          → (count : ℕ) × ((dispatch_all requests (record {
            app = app;
            limiter = new_limiter f slots burst refill_secs global_burst period;
          })).0
              ≤ cfg.max_request_bytes * count)
            × (pos (unit * count)
                ≤ℤ (value (f.of_nat global_burst) +ℤ span from until)
                  +ℤ pos (3 * err * length requests))
      read_bytes_bounded slots burst refill_secs app from requests until o =
          let tokens = value (f.of_nat global_burst) in
          (
            (allow_all f (charges requests)
                (new_limiter f slots burst refill_secs global_burst period)).0,
            dispatch_all-charges requests _,
            omega (
              arith,
              let_through_bound slots burst refill_secs from (charges requests) until
                  (charges-InOrder from requests until o),
              more_roundings (3 * err) (length (charges requests)) (length requests)
                  (length-charges requests),
              +ℤ_parts (tokens +ℤ span from until) (pos (3 * err * length (charges requests))),
              +ℤ_parts (tokens +ℤ span from until) (pos (3 * err * length requests)),
            ),
          )
