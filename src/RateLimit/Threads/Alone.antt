-- ===== src/RateLimit/Threads/Alone.antt =====
-- One thread alone on the limiter of src/tessera/ratelimit.py.
use tessera_server.Common.{
  ℕ, suc, ◌<◌, ◌≡◌, inl, inr, refl, sym, ap, ap₂, ◌∙◌, String, true, false, none, some, List, [],
  ◌∷◌, ◌++◌, arith, length, drop, leb, str_eq, Bool-cases, Option-cases, if◌then◌else◌, eq_refl,
}
use tessera_server.Common.Table.{fetch_one, delete_where}
use tessera_server.RateLimit.Floats.{Float}
use tessera_server.RateLimit.{Bucket, Limiter, is_address, take_bucket, admit, start, charge, allow}
use tessera_server.RateLimit.Slots.{IsValid}
use tessera_server.RateLimit.Threads.{idle, Turn, enter, go, step, turn, run_turns, is_tracked}

abbrev pub addresses : {W : Type 0} → List (String × Bucket W) → List String
addresses [] = []
addresses (e ∷ entries) = e.0 ∷ addresses entries

-- A request on the only thread, with more than enough steps to be done with the dict.
abbrev pub alone : String → List Turn
alone ip = enter 0 ip ∷ go 0 ∷ go 0 ∷ go 0 ∷ go 0 ∷ go 0 ∷ []

module _ {W : Type 0} where
  addresses-append :
      (xs ys : List (String × Bucket W)) → addresses (xs ++ ys) ≡ addresses xs ++ addresses ys
  addresses-append [] ys = refl
  addresses-append (x ∷ xs) ys = ap (λ (t : List String). x.0 ∷ t) (addresses-append xs ys)

  addresses-delete :
      (ip : String) (entries : List (String × Bucket W))
      → addresses (delete_where (is_address ip) entries)
        ≡ delete_where (λ entry. str_eq entry ip) (addresses entries)
  addresses-delete ip [] = refl
  addresses-delete ip (e ∷ entries) = elim (Bool-cases (str_eq e.0 ip)) [
    | inl h ↦ rw h (addresses-delete ip entries)
    | inr h ↦ rw h (ap (λ (t : List String). e.0 ∷ t) (addresses-delete ip entries))
  ]

  tracked-some :
      (ip : String) (entries : List (String × Bucket W)) (e : String × Bucket W)
      → fetch_one (is_address ip) entries ≡ some e
      → is_tracked ip (addresses entries) ≡ true
  tracked-some ip [] e h = absurd (ground arith)
  tracked-some ip (x ∷ entries) e h = ground (arith, tracked-some ip entries e)

  tracked-none :
      (ip : String) (entries : List (String × Bucket W))
      → fetch_one (is_address ip) entries ≡ none
      → is_tracked ip (addresses entries) ≡ false
  tracked-none ip [] h = refl
  tracked-none ip (x ∷ entries) h = ground (arith, tracked-none ip entries)

  length-addresses :
      (entries : List (String × Bucket W)) → length (addresses entries) ≡ length entries
  length-addresses [] = refl
  length-addresses (e ∷ entries) = ap suc (length-addresses entries)

  addresses-admit :
      (f : Float W) (l : Limiter W) (ip : String) (bucket whole : Bucket W)
      (others : List (String × Bucket W))
      → addresses (admit f l ip bucket whole others).1.buckets ≡ addresses others ++ ip ∷ []
  unfolding admit
  addresses-admit f l ip bucket whole others = elim (Bool-cases (f.lt bucket.tokens f.one)) [
    | inl poor ↦ rw (poor, admit) (addresses-append others _)
    | inr rich ↦ elim (Bool-cases (f.lt whole.tokens f.one)) [
      | inl poor ↦ rw (rich, poor, admit) (addresses-append others _)
      | inr enough ↦ rw (rich, enough, admit) (addresses-append others _)
    ]
  ]

  addresses-charge :
      (f : Float W) (l : Limiter W) (ip : String) (now : W)
      → addresses (charge f l ip now).1.buckets ≡ addresses (take_bucket f l ip now).1 ++ ip ∷ []
  unfolding charge
  addresses-charge f l ip now = addresses-admit f l ip _ _ _

  start_same :
      (f : Float W) (l : Limiter W) (now : W)
      → ((start f l now).slots ≡ l.slots) × ((start f l now).buckets ≡ l.buckets)
  unfolding start
  start_same f l now = (ground arith, ground arith)

inserted :
    (ip : String) (table : List String)
    → is_tracked ip table ≡ false
    → (is_tracked ip (table ++ ip ∷ []) ≡ true)
      × (delete_where (λ entry. str_eq entry ip) (table ++ ip ∷ []) ≡ table)
inserted ip [] h = (ground (arith, eq_refl ip), ground (arith, eq_refl ip))
inserted ip (e ∷ table) h =
    let (tracked, deleted) = inserted ip table (ground arith) in (ground arith, ground arith)

-- What the table is without the address, or with one address less.
abbrev others_of : ℕ → String → List String → List String
others_of slots ip table =
    if is_tracked ip table
    then delete_where (λ entry. str_eq entry ip) table
    else if leb slots (length table)
    then drop 1 table
    else table

alone_full :
    (slots : ℕ) (ip : String) (table : List String)
    → 0 < slots
    → is_tracked ip table ≡ false
    → leb slots (length table) ≡ true
    → run_turns slots (alone ip) (idle ∷ []) table
      ≡ (idle ∷ [], others_of slots ip table ++ ip ∷ [])
unfolding run_turns turn step
alone_full slots ip [] h e f = absurd (ground arith)
alone_full slots ip (x ∷ table) h e f =
    let gone : is_tracked ip table ≡ false = ground arith in
    let (tracked, deleted) = inserted ip table gone in
    rw e (rw f (rw gone (rw (tracked, deleted) refl)))

alone_table :
    (slots : ℕ) (ip : String) (table : List String)
    → 0 < slots
    → run_turns slots (alone ip) (idle ∷ []) table
      ≡ (idle ∷ [], others_of slots ip table ++ ip ∷ [])
unfolding run_turns turn step
alone_table slots ip table h = elim (Bool-cases (is_tracked ip table)) [
  | inl e ↦ rw e (rw e refl)
  | inr e ↦ elim (Bool-cases (leb slots (length table))) [
    | inr f ↦
        let (tracked, deleted) = inserted ip table e in
        rw e (rw f (rw e (rw (tracked, deleted) refl)))
    | inl f ↦ alone_full slots ip table h e f
  ]
]

take_bucket-others :
    {W : Type 0} (f : Float W) (l : Limiter W) (ip : String) (now : W)
    → addresses (take_bucket f l ip now).1 ≡ others_of l.slots ip (addresses l.buckets)
unfolding take_bucket
take_bucket-others {W} f l ip now = elim (Option-cases (fetch_one (is_address ip) l.buckets)) [
  | inr (e, found) ↦
      rw (found, take_bucket, tracked-some ip l.buckets e found) (addresses-delete ip l.buckets)
  | inl missing ↦ elim (Bool-cases (leb l.slots (length l.buckets))) [
    | inl full ↦
        rw (missing, take_bucket, tracked-none ip l.buckets missing, length-addresses l.buckets)
          (rw full (dropped l.buckets))
    | inr free ↦
        rw (missing, take_bucket, tracked-none ip l.buckets missing, length-addresses l.buckets)
          (rw free refl)
  ]
]
  where
    dropped :
        (entries : List (String × Bucket W))
        → addresses (drop 1 entries) ≡ drop 1 (addresses entries)
    dropped [] = refl
    dropped (e ∷ entries) = refl

-- The steps of a thread on its own amount to `allow`: they raise nothing, and leave the addresses in
-- the order in which it leaves them.
pub alone-allow :
    {W : Type 0} (f : Float W) (l : Limiter W) (ip : String) (now : W)
    → IsValid l
    → run_turns l.slots (alone ip) (idle ∷ []) (addresses l.buckets)
      ≡ (idle ∷ [], addresses (allow f l ip now).1.buckets)
unfolding allow
alone-allow {W} f l ip now v =
    let (same_slots, same_buckets) = start_same f l now in
    let after = addresses-charge f (start f l now) ip now in
    let taken = take_bucket-others f (start f l now) ip now in
    alone_table l.slots ip (addresses l.buckets) v.room
    ∙ ap (λ (t : List String). (idle ∷ [], t))
        (sym (
          after
          ∙ ap (λ (t : List String). t ++ ip ∷ [])
              (taken
                ∙ ap₂ (λ (s : ℕ) (b : List (String × Bucket W)). others_of s ip (addresses b))
                    same_slots same_buckets)))
