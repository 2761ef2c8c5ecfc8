-- ===== src/Replay.antt =====
-- src/tessera/replay.py: the table of used nonces.
pub mod Window
use tessera_server.Common.{
  ℕ, ◌+◌, String, Bool, true, false, ◌&&◌, List, [], ◌∷◌, ◌++◌, leb, str_eq, if◌then◌else◌,
}
use tessera_server.Common.Table.{delete_where, count_where, exists_where}

-- A row of `nonces`.
pub record Nonce : Type 0 where
  pub key : String
  pub nonce : String
  pub expires_at : ℕ

-- PRIMARY KEY (key, nonce)
abbrev pub is_nonce : String → String → Nonce → Bool
is_nonce key nonce row = str_eq row.key key && str_eq row.nonce nonce

-- ReplayWindow.purge: the rows that stay, and how many were deleted.
unfoldable pub purge : ℕ → List Nonce → List Nonce × ℕ
purge now rows =
    (delete_where (λ r. leb r.expires_at now) rows, count_where (λ r. leb r.expires_at now) rows)

-- ReplayWindow.check_and_record; an INSERT that breaks the primary key changes nothing.
unfoldable pub check_and_record : String → String → ℕ → ℕ → List Nonce → Bool × List Nonce
unfolding purge
check_and_record key nonce now window rows =
    let live = (purge now rows).0 in
    if exists_where (is_nonce key nonce) live
    then (false, live)
    else (true, live ++ (record { key = key; nonce = nonce; expires_at = now + window }) ∷ [])
