-- ===== src/Db.antt =====
-- src/tessera/db.py: the rows of the index. Columns that no code reads are left out: the ids of
-- reports and of log entries, and `report_count`.
pub mod Invariant
use tessera_server.Common.{
  ℕ, ◌+◌, ◌^◌, String, Bool, true, false, ◌&&◌, not, Option, none, some, List, [], ltb, ◌==◌,
  str_eq,
}
use tessera_server.Common.Int.{ℤ}
use tessera_server.Common.Table.{exists_where, fetch_one}
use tessera_server.Replay.{Nonce}

-- CHECK (visibility IN ('public', 'unlisted', 'deleted')); also VISIBILITIES of moderation.py
pub data Visibility : Type 0 where
  public unlisted deleted : Visibility

abbrev pub is_deleted : Visibility → Bool
is_deleted deleted = true
is_deleted _ = false

abbrev pub is_public : Visibility → Bool
is_public public = true
is_public _ = false

pub record Model : Type 0 where
  pub id : ℕ
  pub model_hash : String
  pub thumb_hash : String
  pub title : String
  pub author_key : String
  pub kind : String
  pub model_bytes : ℕ
  pub thumb_bytes : ℕ
  pub created_at : ℕ
  pub score : ℤ
  pub up_votes : ℕ
  pub down_votes : ℕ
  pub visibility : Visibility

pub record Vote : Type 0 where
  pub model_id : ℕ
  pub voter_key : String
  pub value : ℤ
  pub created_at : ℕ

pub record Favourite : Type 0 where
  pub model_id : ℕ
  pub owner_key : String
  pub created_at : ℕ

pub record Report : Type 0 where
  pub model_id : ℕ
  pub reporter_key : String
  pub reason : String
  pub detail : String
  pub created_at : ℕ
  pub resolved_at : Option ℕ

pub record Ban : Type 0 where
  pub key : String
  pub reason : String
  pub created_at : ℕ

pub record LogEntry : Type 0 where
  pub model_id : ℕ
  pub admin_key : String
  pub action : String
  pub reason : String
  pub created_at : ℕ

-- The tables; `last_id` is the AUTOINCREMENT sequence of `models`.
pub record Db : Type 0 where
  pub models : List Model
  pub last_id : ℕ
  pub votes : List Vote
  pub favourites : List Favourite
  pub reports : List Report
  pub bans : List Ban
  pub nonces : List Nonce
  pub admin_log : List LogEntry

-- The schema right after the first `migrate`.
abbrev pub empty_db : Db
empty_db = record {
  models = [];
  last_id = 0;
  votes = [];
  favourites = [];
  reports = [];
  bans = [];
  nonces = [];
  admin_log = [];
}

-- sqlite3 binds an int only if it fits 64 signed bits, and raises OverflowError otherwise.
abbrev pub max_sql_int : ℕ
max_sql_int = 9223372036854775807

-- PRIMARY KEY (model_id, voter_key)
abbrev pub is_vote : ℕ → String → Vote → Bool
is_vote id voter v = v.model_id == id && str_eq v.voter_key voter

-- PRIMARY KEY (owner_key, model_id)
abbrev pub is_favourite : ℕ → String → Favourite → Bool
is_favourite id owner f = f.model_id == id && str_eq f.owner_key owner

-- UNIQUE (model_id, reporter_key)
abbrev pub is_report : ℕ → String → Report → Bool
is_report id reporter r = r.model_id == id && str_eq r.reporter_key reporter

-- resolved_at IS NULL
abbrev pub is_open : Report → Bool
is_open r = elim r.resolved_at [ none ↦ true | some _ ↦ false ]

abbrev pub find_model : ℕ → List Model → Option Model
find_model id = fetch_one (λ m. m.id == id)

-- quota.is_banned, and the test of require_not_banned
unfoldable pub is_banned : Db → String → Bool
is_banned db key = exists_where (λ b. str_eq b.key key) db.bans
