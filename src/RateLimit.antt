-- ===== src/RateLimit.antt =====
-- src/tessera/ratelimit.py: a token bucket for each address and one for all. The floating-point
-- operations that the code uses are a parameter.
pub mod Floats
pub mod Slots
pub mod Credit
pub mod Budget
pub mod Threads
use tessera_server.Common.{
  ℕ, String, Bool, true, false, Option, none, some, List, [], ◌∷◌, ◌++◌, length, drop, leb, ltb,
  str_eq, if◌then◌else◌,
}
use tessera_server.Common.Table.{fetch_one, delete_where}
use tessera_server.Config.{TesseraConfig}
use tessera_server.RateLimit.Floats.{Float, min_float, max_float}

-- _Bucket
pub record Bucket (W : Type 0) : Type 0 where
  pub tokens : W
  pub last : W

-- The fields of a TokenBucketLimiter. `buckets` is the OrderedDict, least recently used first.
pub record Limiter (W : Type 0) : Type 0 where
  pub slots : ℕ
  pub burst : W
  pub refill_secs : W
  pub global_burst : W
  pub global_refill_secs : W
  pub buckets : List (String × Bucket W)
  pub global_bucket : Bucket W
  pub global_started : Bool

abbrev pub is_address {ℓ} : {A : Type ℓ} → String → String × A → Bool
is_address ip e = str_eq e.0 ip

module _ {W : Type 0} (f : Float W) where
  -- TokenBucketLimiter.__init__
  unfoldable pub new_limiter : ℕ → ℕ → W → ℕ → W → Limiter W
  new_limiter slots burst refill_secs global_burst global_refill_secs = record {
    slots = if leb 1 slots then slots else 1;
    burst = f.of_nat burst;
    refill_secs = refill_secs;
    global_burst = f.of_nat global_burst;
    global_refill_secs = global_refill_secs;
    buckets = [];
    global_bucket = record { tokens = f.of_nat global_burst; last = f.zero };
    global_started = false;
  }

  -- TokenBucketLimiter.from_config; the two periods are floats, which the record does not hold
  unfoldable pub from_config : TesseraConfig → W → W → Limiter W
  unfolding new_limiter
  from_config cfg ip_refill_secs global_refill_secs =
      new_limiter cfg.ip_slots cfg.ip_burst ip_refill_secs cfg.global_burst global_refill_secs

  -- TokenBucketLimiter._refill
  unfoldable pub refill : Bucket W → W → W → W → Bucket W
  refill bucket now burst refill_secs = record {
    tokens =
        if f.le refill_secs f.zero
        then burst
        else min_float f burst
            (f.add bucket.tokens (f.div (max_float f f.zero (f.sub now bucket.last)) refill_secs));
    last = now;
  }

  -- TokenBucketLimiter.tracked
  abbrev pub tracked : Limiter W → ℕ
  tracked l = length l.buckets

  -- `if not self._global_started`
  unfoldable pub start : Limiter W → W → Limiter W
  start l now =
      if l.global_started
      then l
      else record l { global_bucket = record l.global_bucket { last = now }; global_started = true }

  -- The bucket of the address, and the entries of the others: the least recently used one goes
  -- if the address is new and no slot is free.
  unfoldable pub take_bucket : Limiter W → String → W → Bucket W × List (String × Bucket W)
  take_bucket l ip now = elim (fetch_one (is_address ip) l.buckets) [
    | some e ↦ (e.1, delete_where (is_address ip) l.buckets)
    | none ↦ (
      record { tokens = l.burst; last = now },
      if leb l.slots (length l.buckets) then drop 1 l.buckets else l.buckets,
    )
  ]

  -- The address's entry goes to the end.
  abbrev pub put_bucket : Limiter W → String → Bucket W → List (String × Bucket W) → Limiter W
  put_bucket l ip bucket others = record l { buckets = others ++ (ip, bucket) ∷ [] }

  abbrev pub spend : Bucket W → Bucket W
  spend bucket = record bucket { tokens = f.sub bucket.tokens f.one }

  -- allow, from the test of the address's bucket on, with both buckets refilled. The global bucket
  -- is only written when the first test passes.
  unfoldable pub admit :
      Limiter W → String → Bucket W → Bucket W → List (String × Bucket W) → Bool × Limiter W
  admit l ip bucket whole others =
      if f.lt bucket.tokens f.one
      then (false, put_bucket l ip bucket others)
      else if f.lt whole.tokens f.one
      then (false, put_bucket (record l { global_bucket = whole }) ip bucket others)
      else (true, put_bucket (record l { global_bucket = spend whole }) ip (spend bucket) others)

  -- allow behind its first `if`
  unfoldable pub charge : Limiter W → String → W → Bool × Limiter W
  unfolding take_bucket refill admit
  charge l ip now =
      let (found, others) = take_bucket l ip now in
      admit l ip (refill found now l.burst l.refill_secs)
        (refill l.global_bucket now l.global_burst l.global_refill_secs) others

  -- TokenBucketLimiter.allow
  unfoldable pub allow : Limiter W → String → W → Bool × Limiter W
  unfolding start charge
  allow limiter ip now = charge (start limiter now) ip now
