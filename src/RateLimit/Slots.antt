-- ===== src/RateLimit/Slots.antt =====
-- The table of address buckets of src/tessera/ratelimit.py.
use tessera_server.Common.{
  ℕ, ◌==◌, if◌then◌else◌, ◌≤◌, ◌<◌, ◌≡◌, ◌≢◌, ◌⊎◌, inl, inr, refl, ap, ◌∙◌, String, true, false,
  Option, none, some, List, [], ◌∷◌, ◌++◌, arith, length, length-append, length-drop, drop, str_eq,
  eq_iff, Bool-cases, Option-cases,
}
use tessera_server.Common.Table.{fetch_one, delete_where, count_where}
use tessera_server.Common.Table.Laws.{count_where-delete-le}
use tessera_server.Common.Table.Counts.{
  length-delete, fetch_one-counted, fetch_one-uncounted, uncounted-fetch_one, count_where-delete,
  count_where-append, fetch_one-append, count_where-drop, fetch_one-delete_ne,
}
use tessera_server.RateLimit.Floats.{Float}
use tessera_server.RateLimit.{
  Bucket, Limiter, is_address, refill, start, take_bucket, spend, admit, charge, allow, new_limiter,
}

-- There is a slot, no more addresses are tracked than there are slots, and none twice.
pub record IsValid {W : Type 0} (l : Limiter W) : Type 0 where
  pub room : 0 < l.slots
  pub bounded : length l.buckets ≤ l.slots
  pub distinct : (ip : String) → count_where (is_address ip) l.buckets ≤ 1

abbrev bucket_in : {W : Type 0} → Option (String × Bucket W) → Option (Bucket W)
bucket_in none = none
bucket_in (some e) = some e.1

-- The bucket of an address, if it is tracked.
abbrev pub bucket_of : {W : Type 0} → Limiter W → String → Option (Bucket W)
bucket_of l ip = bucket_in (fetch_one (is_address ip) l.buckets)

abbrev first_address : {A : Type 0} → List (String × A) → Option String
first_address [] = none
first_address (e ∷ rest) = some e.0

-- The address that would be evicted next.
abbrev pub oldest : {W : Type 0} → Limiter W → Option String
oldest l = first_address l.buckets

-- Without its first entry a table has lost at most the first address.
oldest_cases :
    {A : Type 0} (other : String) (entries : List (String × A))
    → count_where (is_address other) entries ≤ 1
    → (fetch_one (is_address other) (drop 1 entries) ≡ fetch_one (is_address other) entries)
      ⊎ ((first_address entries ≡ some other)
          × (fetch_one (is_address other) (drop 1 entries) ≡ none))
oldest_cases other [] h = inl refl
oldest_cases other (e ∷ rest) h = elim (Bool-cases (str_eq e.0 other)) [
  | inl here ↦ inr (
    ap some ((eq_iff e.0 other).0 here),
    uncounted-fetch_one (is_address other) rest (ground arith),
  )
  | inr elsewhere ↦ inl (rw elsewhere refl)
]

ne-is_address :
    {A : Type 0} (ip other : String)
    → other ≢ ip
    → (e : String × A) → is_address ip e ≡ true
    → is_address other e ≡ false
ne-is_address ip other ne e h = ground (arith, eq_iff e.0 ip, eq_iff e.0 other)

module _ {W : Type 0} (f : Float W) (l : Limiter W) (ip : String) (now : W) where
  abbrev others : List (String × Bucket W)
  others = (take_bucket f l ip now).1

  -- The address is tracked, or it is new and a slot is free, or the oldest entry goes.
  others_cases :
      ((0 < count_where (is_address ip) l.buckets)
        × (others ≡ delete_where (is_address ip) l.buckets))
      ⊎ ((fetch_one (is_address ip) l.buckets ≡ none)
          × (((length l.buckets < l.slots) × (others ≡ l.buckets))
              ⊎ ((l.slots ≤ length l.buckets) × (others ≡ drop 1 l.buckets))))
  unfolding take_bucket
  others_cases = elim (Option-cases (fetch_one (is_address ip) l.buckets)) [
    | inl new ↦ inr (new, ground arith)
    | inr (e, found) ↦ inl (fetch_one-counted (is_address ip) l.buckets e found, ground arith)
  ]

  others-lt_slots : IsValid l → length others < l.slots
  others-lt_slots v = elim others_cases [
    | inl (tracked, e) ↦
        rw e (omega (arith, v.bounded, length-delete {0} (is_address ip) l.buckets))
    | inr (new, inl (free, e)) ↦ rw e free
    | inr (new, inr (full, e)) ↦
        rw e (omega (arith, v.room, v.bounded, full, length-drop {0} 1 l.buckets))
  ]

  others-count : IsValid l → (other : String) → count_where (is_address other) others ≤ 1
  others-count v other = elim others_cases [
    | inl (tracked, e) ↦ rw e (
        omega (
          arith,
          v.distinct other,
          count_where-delete-le (is_address ip) (is_address other) l.buckets,
        ))
    | inr (new, inl (free, e)) ↦ rw e (v.distinct other)
    | inr (new, inr (full, e)) ↦
        rw e (omega (arith, v.distinct other, count_where-drop (is_address other) l.buckets))
  ]

  others-fresh : count_where (is_address ip) others ≡ 0
  others-fresh = elim others_cases [
    | inl (tracked, e) ↦ rw e (count_where-delete (is_address ip) l.buckets)
    | inr (new, inl (free, e)) ↦ rw e (fetch_one-uncounted (is_address ip) l.buckets new)
    | inr (new, inr (full, e)) ↦ rw e (
        omega (
          arith,
          fetch_one-uncounted (is_address ip) l.buckets new,
          count_where-drop (is_address ip) l.buckets,
        ))
  ]

take_bucket-start :
    {W : Type 0} (f : Float W) (l : Limiter W) (ip : String) (now : W)
    → take_bucket f (start f l now) ip now ≡ take_bucket f l ip now
unfolding take_bucket start
take_bucket-start f l ip now = elim (Bool-cases l.global_started) [
  | inl e ↦ rw (e, start) refl
  | inr e ↦ rw (e, start) refl
]

start-slots : {W : Type 0} (f : Float W) (l : Limiter W) (now : W) → (start f l now).slots ≡ l.slots
unfolding start
start-slots f l now = ground arith

admit-buckets :
    {W : Type 0} (f : Float W) (l : Limiter W) (ip : String) (bucket whole : Bucket W)
    (others : List (String × Bucket W))
    → (b : Bucket W) × ((admit f l ip bucket whole others).1.buckets ≡ others ++ (ip, b) ∷ [])
      × ((admit f l ip bucket whole others).1.slots ≡ l.slots)
unfolding admit
admit-buckets f l ip bucket whole others = elim (Bool-cases (f.lt bucket.tokens f.one)) [
  | inl low ↦ (bucket, rw (low, admit) refl, rw (low, admit) refl)
  | inr high ↦ elim (Bool-cases (f.lt whole.tokens f.one)) [
    | inl dry ↦ (bucket, rw (high, dry, admit) refl, rw (high, dry, admit) refl)
    | inr full ↦ (spend f bucket, rw (high, full, admit) refl, rw (high, full, admit) refl)
  ]
]

module _ {W : Type 0} (f : Float W) (l : Limiter W) (ip : String) (now : W) where
  -- The entry of the address ends up last, behind those of the others.
  allow-buckets :
      (bucket : Bucket W) × ((allow f l ip now).1.buckets
        ≡ (take_bucket f l ip now).1 ++ (ip, bucket) ∷ [])
      × ((allow f l ip now).1.slots ≡ l.slots)
  unfolding allow charge
  allow-buckets =
      let l' = start f l now in
      let found = take_bucket f l' ip now in
      let (bucket, entries, slots) =
        admit-buckets f l' ip (refill f found.0 now l'.burst l'.refill_secs)
          (refill f l'.global_bucket now l'.global_burst l'.global_refill_secs) found.1 in
      (
        bucket,
        entries
            ∙ ap (λ (t : Bucket W × List (String × Bucket W)). t.1 ++ (ip, bucket) ∷ [])
                (take_bucket-start f l ip now),
        slots ∙ start-slots f l now,
      )

  -- A call keeps a limiter valid.
  pub allow-IsValid : IsValid l → IsValid (allow f l ip now).1
  allow-IsValid v =
      let (bucket, entries, slots) = allow-buckets in
      record {
        room = rw slots v.room;
        bounded =
            rw (entries, slots)
              (omega (
                arith,
                length-append {0} (others f l ip now) ((ip, bucket) ∷ []),
                others-lt_slots f l ip now v,
              ));
        distinct = λ other. rw entries (
            rw (count_where-append (is_address other) (others f l ip now) ((ip, bucket) ∷ []))
              (elim (Bool-cases (str_eq ip other)) [
                | inl same ↦
                    let here : ip ≡ other = (eq_iff ip other).0 same in
                    rw (same, ← here) (omega (arith, others-fresh f l ip now))
                | inr differ ↦ rw differ (omega (arith, others-count f l ip now v other))
              ]));
      }

  bucket_of-allow :
      (other : String)
      → other ≢ ip
      → fetch_one (is_address other) (allow f l ip now).1.buckets
        ≡ fetch_one (is_address other) (others f l ip now)
  bucket_of-allow other ne =
      let (bucket, entries, slots) = allow-buckets in
      rw entries (
        fetch_one-append (is_address other) (others f l ip now) (ip, bucket)
          (ground (arith, eq_iff ip other)))

  -- A request from one address leaves the bucket of every other as it was, but for one that it may
  -- evict: then the requesting address is new, the table is full, and the other address is the
  -- least recently used one.
  pub allow_isolated :
      (other : String)
      → IsValid l
      → other ≢ ip
      → (bucket_of (allow f l ip now).1 other ≡ bucket_of l other)
        ⊎ ((oldest l ≡ some other)
            × (bucket_of l ip ≡ none)
            × (length l.buckets ≡ l.slots)
            × (bucket_of (allow f l ip now).1 other ≡ none))
  allow_isolated other v ne =
      let after = ap bucket_in (bucket_of-allow other ne) in
      elim (others_cases f l ip now) [
        | inl (tracked, e) ↦ inl (
            after
            ∙ ap (λ (t : List (String × Bucket W)). bucket_in (fetch_one (is_address other) t)) e
            ∙ ap bucket_in (
                fetch_one-delete_ne (is_address ip) (is_address other) (ne-is_address ip other ne)
                  l.buckets))
        | inr (new, inl (free, e)) ↦ inl (
            after
            ∙ ap (λ (t : List (String × Bucket W)). bucket_in (fetch_one (is_address other) t)) e)
        | inr (new, inr (full, e)) ↦
            let kept =
              after
              ∙ ap (λ (t : List (String × Bucket W)). bucket_in (fetch_one (is_address other) t))
                  e in
            elim (oldest_cases other l.buckets (v.distinct other)) [
              | inl same ↦ inl (kept ∙ ap bucket_in same)
              | inr (first, gone) ↦
                  inr (first, ap bucket_in new, omega (arith, v.bounded), kept ∙ ap bucket_in gone)
            ]
      ]

module _ {W : Type 0} (f : Float W) where
  -- The limiter after calls of allow, one after the other.
  unfoldable pub called : List (String × W) → Limiter W → Limiter W
  called [] l = l
  called ((ip, now) ∷ calls) l = called calls (allow f l ip now).1

  called-keeps :
      (calls : List (String × W)) (l : Limiter W)
      → IsValid l
      → IsValid (called calls l) × ((called calls l).slots ≡ l.slots)
  unfolding called
  called-keeps [] l v = (v, refl)
  called-keeps ((ip, now) ∷ calls) l v =
      let (bucket, entries, slots) = allow-buckets f l ip now in
      let (valid, same) = called-keeps calls (allow f l ip now).1 (allow-IsValid f l ip now v) in
      (valid, same ∙ slots)

  new_limiter-IsValid :
      (slots burst global_burst : ℕ) (refill_secs global_refill_secs : W)
      → let l = new_limiter f slots burst refill_secs global_burst global_refill_secs in
        IsValid l × (l.slots ≡ (if slots == 0 then 1 else slots))
  unfolding new_limiter
  new_limiter-IsValid slots burst global_burst refill_secs global_refill_secs = (
    record { room = ground arith; bounded = ground arith; distinct = λ ip. ground arith },
    ground arith,
  )

  -- After any calls of allow, one after the other, a limiter that __init__ has made tracks no more
  -- addresses than it has slots, and none twice; the slots are those it was given, but at least one.
  pub called-IsValid :
      (slots burst global_burst : ℕ) (refill_secs global_refill_secs : W)
      (calls : List (String × W))
      → let l =
          called calls (new_limiter f slots burst refill_secs global_burst global_refill_secs) in
        IsValid l × (l.slots ≡ (if slots == 0 then 1 else slots))
  called-IsValid slots burst global_burst refill_secs global_refill_secs calls =
      let (made, given) =
        new_limiter-IsValid slots burst global_burst refill_secs global_refill_secs in
      let (valid, same) = called-keeps calls _ made in (valid, same ∙ given)
