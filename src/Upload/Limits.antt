-- ===== src/Upload/Limits.antt =====
-- What an accepted, a refused and a duplicate upload leave behind.
use tessera_server.Common.{
  ℕ, ◌+◌, ◌≤◌, ◌<◌, String, ◌≡◌, refl, Bool, true, false, ◌&&◌, ◌⊎◌, inl, inr, List, [], ◌∷◌, ◌++◌,
  Result, ok, arith, length, str_eq, ltb, Bool-cases, Result-cases,
}
use tessera_server.Common.Table.{exists_where, count_where}
use tessera_server.Bytes.{Bytes}
use tessera_server.Bytes.Codec.{hex}
use tessera_server.Config.{TesseraConfig}
use tessera_server.Hydro.{HydroFault}
use tessera_server.Json.{Loaded}
use tessera_server.Http.{error}
use tessera_server.Db.{Db, is_banned}
use tessera_server.Store.{Blob, put, total_bytes, at_digest, store_at, validated}
use tessera_server.Envelope.{UploadEnvelope, parse_upload}
use tessera_server.Quota.{
  check_upload_allowed, uploads_today, uploads_last_hour, day_seconds, hour_seconds,
}
use tessera_server.Upload.{App, new_model, insert_model, store_and_insert, handle_upload}

-- What a passed check has compared.
pub record Allowed (cfg : TesseraConfig) (db : Db) (blobs : List Blob) (key : String)
    (bytes now : ℕ) : Type 0 where
  pub free : is_banned db key ≡ false
  pub fits : bytes ≤ cfg.max_request_bytes
  pub today : uploads_today db key now < cfg.uploads_per_key_per_day
  pub hour : uploads_last_hour db now < cfg.global_uploads_per_hour
  pub room : total_bytes blobs + bytes ≤ cfg.max_total_disk_bytes

check-Allowed :
    (cfg : TesseraConfig) (db : Db) (blobs : List Blob) (key : String) (bytes now : ℕ)
    → check_upload_allowed cfg db blobs key bytes now ≡ ok tt
    → Allowed cfg db blobs key bytes now
unfolding check_upload_allowed
check-Allowed cfg db blobs key bytes now e = ground arith

total_bytes-append :
    (blobs : List Blob) (b : Blob)
    → total_bytes (blobs ++ b ∷ []) ≡ total_bytes blobs + length b.content
unfolding total_bytes
total_bytes-append [] b = omega arith
total_bytes-append (x ∷ blobs) b = omega (arith, total_bytes-append blobs b)

count_where-append-le :
    {A : Type 0} (p : A → Bool) (rows : List A) (x : A)
    → count_where p (rows ++ x ∷ []) ≤ count_where p rows + 1
count_where-append-le p [] x = ground arith
count_where-append-le p (r ∷ rows) x = ground (arith, count_where-append-le p rows x)

total_bytes-store_at :
    (target : String) (content : Bytes) (blobs : List Blob)
    → total_bytes (store_at target content blobs) ≤ total_bytes blobs + length content
total_bytes-store_at target content blobs =
    elim (Bool-cases (exists_where (at_digest target) blobs)) [
      | inl old ↦ rw old (omega arith)
      | inr new ↦ rw (new, total_bytes-append) (omega arith)
    ]

module _ (hasher : Bytes → Result HydroFault Bytes) where
  pub put-ok :
      (content : Bytes) (blobs blobs' : List Blob) (digest : String)
      → put hasher content blobs ≡ ok (digest, blobs')
      → blobs' ≡ store_at digest content blobs
  unfolding put
  put-ok content blobs blobs' digest e = elim (Result-cases (hasher content)) [
    | inl (x, p) ↦ absurd (ground arith)
    | inr (h, p) ↦ elim (Result-cases (validated (hex h))) [
      | inl (x, q) ↦ absurd (ground arith)
      | inr (v, q) ↦ ground arith
    ]
  ]

  insert_model-blobs :
      (app : App) (e : UploadEnvelope) (author model_hash thumb_hash : String) (now : ℕ)
      → (insert_model app e author model_hash thumb_hash now).1.blobs ≡ app.blobs
  unfolding insert_model
  insert_model-blobs app e author model_hash thumb_hash now = ground arith

  store_and_insert-total_bytes :
      (app : App) (e : UploadEnvelope) (author : String) (now : ℕ)
      → total_bytes (store_and_insert hasher app e author now).1.blobs
        ≤ total_bytes app.blobs + (length e.model + length e.thumb)
  unfolding store_and_insert
  store_and_insert-total_bytes app e author now =
      elim (Result-cases (put hasher e.model app.blobs)) [
        | inl (x, p) ↦ rw (p, store_and_insert) (omega arith)
        | inr (m, p) ↦
            let first = put-ok e.model app.blobs m.1 m.0 p in
            let one = total_bytes-store_at m.0 e.model app.blobs in
            elim (Result-cases (put hasher e.thumb m.1)) [
              | inl (x, q) ↦ rw (p, q, store_and_insert) (rw first (omega (arith, one)))
              | inr (t, q) ↦
                  let second = put-ok e.thumb m.1 t.1 t.0 q in
                  let two = total_bytes-store_at t.0 e.thumb m.1 in
                  rw (p, q, store_and_insert, insert_model-blobs)
                    (rw second (omega (arith, two, (rw (← first) at one))))
            ]
      ]

  module _ (cfg : TesseraConfig) (e : UploadEnvelope) (key : String) (now : ℕ) where
    abbrev Counted : Db → Db → Type 0
    Counted before after =
        (after ≡ before)
        ⊎ ((is_banned before key ≡ false)
            × (uploads_today after key now ≤ cfg.uploads_per_key_per_day)
            × (uploads_last_hour after now ≤ cfg.global_uploads_per_hour))

    insert_model_counts :
        (app : App) (blobs : List Blob) (bytes : ℕ) (model_hash thumb_hash : String)
        → Allowed cfg app.db blobs key bytes now
        → Counted app.db (insert_model app e key model_hash thumb_hash now).1.db
    unfolding insert_model uploads_today uploads_last_hour
    insert_model_counts app blobs bytes model_hash thumb_hash a =
        elim (Bool-cases (exists_where (λ m. str_eq m.model_hash model_hash) app.db.models)) [
          | inl dup ↦ inl (ground arith)
          | inr new ↦ inr (
            a.free,
            rw (new, insert_model)
                (omega (
                  arith,
                  count_where-append-le
                      (λ m. str_eq m.author_key key && ltb now (m.created_at + day_seconds))
                      app.db.models (new_model app.db e key model_hash thumb_hash now),
                  a.today,
                )),
            rw (new, insert_model)
                (omega (
                  arith,
                  count_where-append-le (λ m. ltb now (m.created_at + hour_seconds)) app.db.models
                      (new_model app.db e key model_hash thumb_hash now),
                  a.hour,
                )),
          )
        ]

    store_and_insert_counts :
        (app : App) (blobs : List Blob) (bytes : ℕ)
        → Allowed cfg app.db blobs key bytes now
        → Counted app.db (store_and_insert hasher app e key now).1.db
    unfolding store_and_insert
    store_and_insert_counts app blobs bytes a = elim (Result-cases (put hasher e.model app.blobs)) [
      | inl (x, p) ↦ inl (rw (p, store_and_insert))
      | inr (m, p) ↦ elim (Result-cases (put hasher e.thumb m.1)) [
        | inl (x, q) ↦ inl (rw (p, q, store_and_insert))
        | inr (t, q) ↦
            rw (p, q, store_and_insert)
              (insert_model_counts (record app { blobs = t.1 }) blobs bytes m.0 t.0 a)
      ]
    ]

  module _ (loads : Bytes → Loaded) (cfg : TesseraConfig) where
    -- A blob store within its configured ceiling is within it after any upload.
    pub handle_upload_disk :
        (body : Bytes) (key : String) (now : ℕ) (app : App)
        → total_bytes app.blobs ≤ cfg.max_total_disk_bytes
        → total_bytes (handle_upload hasher loads cfg body key now app).1.blobs
          ≤ cfg.max_total_disk_bytes
    unfolding handle_upload
    handle_upload_disk body key now app h = elim (Result-cases (parse_upload loads cfg body)) [
      | inl (x, p) ↦ rw (p, handle_upload) h
      | inr (e, p) ↦
          elim (Result-cases
            (check_upload_allowed cfg app.db app.blobs key (length e.model + length e.thumb) now)) [
              | inl (x, q) ↦ rw (p, q, handle_upload) h
              | inr (u, q) ↦
                  let allowed =
                    check-Allowed cfg app.db app.blobs key (length e.model + length e.thumb) now
                      q in
                  rw (p, q, handle_upload)
                    (omega (arith, store_and_insert-total_bytes app e key now, allowed.room))
            ]
    ]

    -- An upload leaves the tables as they were, or it came from a key that was not banned and
    -- leaves the day's count of that key and the hour's count of all keys within their limits.
    pub handle_upload_quota :
        (body : Bytes) (key : String) (now : ℕ) (app : App)
        → ((handle_upload hasher loads cfg body key now app).1.db ≡ app.db)
          ⊎ ((is_banned app.db key ≡ false)
              × (uploads_today (handle_upload hasher loads cfg body key now app).1.db key now
                  ≤ cfg.uploads_per_key_per_day)
              × (uploads_last_hour (handle_upload hasher loads cfg body key now app).1.db now
                  ≤ cfg.global_uploads_per_hour))
    unfolding handle_upload
    handle_upload_quota body key now app = elim (Result-cases (parse_upload loads cfg body)) [
      | inl (x, p) ↦ inl (rw (p, handle_upload))
      | inr (e, p) ↦
          elim (Result-cases
            (check_upload_allowed cfg app.db app.blobs key (length e.model + length e.thumb) now)) [
              | inl (x, q) ↦ inl (rw (p, q, handle_upload))
              | inr (u, q) ↦
                  let allowed =
                    check-Allowed cfg app.db app.blobs key (length e.model + length e.thumb) now
                      q in
                  rw (p, q, handle_upload)
                    (store_and_insert_counts cfg e key now app app.blobs _ allowed)
            ]
    ]

    -- A permitted upload whose model is in the gallery already, with a thumbnail that is not, is
    -- answered 409 and leaves the tables as they were, but the blob store has grown by the whole
    -- thumbnail.
    pub duplicate_keeps_thumb :
        (body : Bytes) (key : String) (now : ℕ) (app : App) (e : UploadEnvelope)
        (model_hash thumb_hash : String) (blobs blobs' : List Blob)
        → parse_upload loads cfg body ≡ ok e
        → check_upload_allowed cfg app.db app.blobs key (length e.model + length e.thumb) now
          ≡ ok tt
        → put hasher e.model app.blobs ≡ ok (model_hash, blobs)
        → put hasher e.thumb blobs ≡ ok (thumb_hash, blobs')
        → exists_where (λ m. str_eq m.model_hash model_hash) app.db.models ≡ true
        → exists_where (at_digest model_hash) app.blobs ≡ true
        → exists_where (at_digest thumb_hash) app.blobs ≡ false
        → ((handle_upload hasher loads cfg body key now app).0 ≡ ok (error 409 "duplicate"))
          × ((handle_upload hasher loads cfg body key now app).1.db ≡ app.db)
          × (total_bytes (handle_upload hasher loads cfg body key now app).1.blobs
              ≡ total_bytes app.blobs + length e.thumb)
    unfolding handle_upload store_and_insert insert_model
    duplicate_keeps_thumb body key now app e model_hash thumb_hash blobs blobs' p q m t dup old
          new =
        let first = put-ok e.model app.blobs blobs model_hash m in
        let second = put-ok e.thumb blobs blobs' thumb_hash t in
        let same : blobs ≡ app.blobs = rw old at first in
        let added : blobs' ≡ app.blobs ++ (record { digest = thumb_hash; content = e.thumb }) ∷ [] =
          rw (same, new) at second in
        rw (p, q, handle_upload)
          (rw (m, t, store_and_insert)
            (rw (dup, insert_model) (refl, refl, rw added (total_bytes-append app.blobs _))))
