-- ===== src/Social/Voting/Interleaving.antt =====
-- Votes of several threads, statement by statement. The connection is opened with
-- `isolation_level=None`, under which `with app.conn:` opens no transaction, so each statement of
-- handle_vote commits on its own and those of other threads may come between.
use tessera_server.Common.{
  ℕ, String, ◌≡◌, ◌≢◌, sym, ap, ◌∙◌, Bool, false, ◌||◌, List, [], ◌∷◌, ◌++◌, arith, ◌==◌, All,
}
use tessera_server.Common.Int.{ℤ, pos_part, neg_part, ◌+ℤ◌, int_laws}
use tessera_server.Common.Table.Laws.{All-map, All-update}
use tessera_server.Db.{Db, Model, Visibility}
use tessera_server.Moderation.{set_visibility}
use tessera_server.Social.Voting.{record_vote, recount, your_vote}
use tessera_server.Social.Voting.Tally.{IsTallied, AllTallied, VotesKeyed, record_vote-IsTallied}
use tessera_server.Social.Voting.Score.{sum_for-record_vote}

-- The tables, and the models whose recount some thread still owes.
pub record World : Type 0 where
  pub db : Db
  pub owed : List ℕ

-- One statement of one thread.
pub data Statement : World → World → Type 0 where
  vote :
      (w : World) (id : ℕ) (voter : String) (value : ℤ) (now : ℕ)
      → Statement w (record { db = record_vote w.db id voter value now; owed = id ∷ w.owed })
  count :
      (w : World) (id : ℕ) (before after : List ℕ)
      → w.owed ≡ before ++ (id ∷ after)
      → Statement w (record { db = recount w.db id; owed = before ++ after })
  show :
      (w : World) (id : ℕ) (visibility : Visibility)
      → Statement w (record { db = set_visibility w.db id visibility; owed = w.owed })

pub data Run (s : World) : World → Type 0 where
  here : Run s s
  next : {t u : World} → Run s t → Statement t u → Run s u

abbrev owes : ℕ → List ℕ → Bool
owes id [] = false
owes id (j ∷ owed) = (j == id) || owes id owed

-- Only a model whose recount is owed may have wrong counters.
IsSettled : World → Type 0
IsSettled w = All (λ m. owes m.id w.owed ≡ false → IsTallied w.db.votes m) w.db.models

cancel_left : (a b c : ℤ) → a +ℤ b ≡ a +ℤ c → b ≡ c
cancel_left a b c h = omega (int_laws, ap pos_part h, ap neg_part h)

owes-append :
    (i id : ℕ) (before after : List ℕ)
    → i ≢ id
    → owes i (before ++ after) ≡ false
    → owes i (before ++ (id ∷ after)) ≡ false
owes-append i id [] after ne h = ground arith
owes-append i id (j ∷ before) after ne h = ground (arith, owes-append i id before after ne)

Statement-IsSettled : {t u : World} → Statement t u → IsSettled t → IsSettled u
unfolding IsSettled
Statement-IsSettled (vote w id voter value now) h =
    unfold record_vote in
    All-map (λ m. owes m.id w.owed ≡ false → IsTallied w.db.votes m)
      (λ m.
        owes m.id (id ∷ w.owed) ≡ false → IsTallied (record_vote w.db id voter value now).votes m)
      (λ m old settled.
        record_vote-IsTallied w.db id voter value now m (ground arith) (old (ground arith)))
      w.db.models h
Statement-IsSettled (count w id before after e) h =
    unfold recount in
    All-update (λ m. owes m.id w.owed ≡ false → IsTallied w.db.votes m)
      (λ m. owes m.id (before ++ after) ≡ false → IsTallied w.db.votes m) (λ m. m.id == id) _
      (λ m same old settled. record {
        score = ground arith;
        ups = ground arith;
        downs = ground arith;
      })
      (λ m other old settled. old (rw e (owes-append m.id id before after (ground arith) settled)))
      w.db.models h
Statement-IsSettled (show w id visibility) h =
    unfold set_visibility in
    All-update (λ m. owes m.id w.owed ≡ false → IsTallied w.db.votes m)
      (λ m. owes m.id w.owed ≡ false → IsTallied w.db.votes m) _ _
      (λ m hit old settled. record {
        score = (old settled).score;
        ups = (old settled).ups;
        downs = (old settled).downs;
      })
      (λ m miss old. old) w.db.models h

Run-IsSettled : {s w : World} → Run s w → IsSettled s → IsSettled w
Run-IsSettled here h = h
Run-IsSettled (next r st) h = Statement-IsSettled st (Run-IsSettled r h)

-- However the statements of concurrent votes and visibility changes interleave, the counters of
-- every model are right whenever no thread is between its two statements.
pub quiescent-AllTallied :
    (s w : World) → s.owed ≡ [] → AllTallied s.db → Run s w → w.owed ≡ [] → AllTallied w.db
unfolding IsSettled
quiescent-AllTallied s w none_owed tallied r quiet =
    All-map (λ m. owes m.id w.owed ≡ false → IsTallied w.db.votes m) (IsTallied w.db.votes)
      (λ m settled. settled (rw quiet)) w.db.models
      (Run-IsSettled r (
        All-map (IsTallied s.db.votes) (λ m. owes m.id s.owed ≡ false → IsTallied s.db.votes m)
          (λ m t settled. t) s.db.models tallied))

-- The vote and its recount are not one transaction: after the first statement alone, which other
-- threads can see, a model whose score was right has a wrong one, if the vote changes anything.
pub vote_not_atomic :
    (db : Db) (m : Model) (voter : String) (value : ℤ) (now : ℕ)
    → VotesKeyed db
    → IsTallied db.votes m
    → your_vote db m.id voter ≢ value
    → ¬ IsTallied (record_vote db m.id voter value now).votes m
vote_not_atomic db m voter value now keyed tallied changes after =
    let same = sym tallied.score ∙ after.score in
    changes (
      cancel_left _ _ _
        (sum_for-record_vote db m.id voter value now keyed ∙ ap (λ (t : ℤ). t +ℤ value) same))
