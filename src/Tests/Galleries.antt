-- ===== src/Tests/Galleries.antt =====
-- The theorems on the listings, at small galleries.
use tessera_server.Common.{ℕ, ◌≡◌, false, ◌&&◌, none, List, [], ◌∷◌, arith, All, ltb, ◌==◌}
use tessera_server.Common.Table.{count_where}
use tessera_server.Common.Sort.{IsOrdered}
use tessera_server.Db.{Db, Model, unlisted}
use tessera_server.Moderation.{open_report_count}
use tessera_server.Content.{Query}
use tessera_server.Content.Browse.{top, may_precede}
use tessera_server.Content.Browse.Pages.{browsed, browsed_complete}
use tessera_server.Admin.Reports.{queue, more_reported}
use tessera_server.Admin.Reports.Queue.{IsCounted, queue_agrees}
use tessera_server.Tests.Fixtures.{other_key, some_model, some_db}

-- A later model, and one that is not public.
abbrev later_model : Model
later_model = record some_model { id = 2; title = "ball"; created_at = 1100 }

abbrev hidden_model : Model
hidden_model = record some_model { id = 3; visibility = unlisted }

abbrev three_models : List Model
three_models = some_model ∷ later_model ∷ hidden_model ∷ []

abbrev no_query : Query
no_query name = []

browsed_complete_example :
    (count_where (λ m. m.id == 2) (browsed top "model" three_models 1 2) ≡ 1)
    × IsOrdered (may_precede top) (browsed top "model" three_models 1 2)
browsed_complete_example =
    browsed_complete top "model" three_models 1 2 (λ m. m.id == 2) (omega arith)

abbrev reported_db : Db
reported_db = record some_db {
  models = three_models;
  reports =
      record {
        model_id = 2;
        reporter_key = other_key;
        reason = "spam";
        detail = "";
        created_at = 1150;
        resolved_at = none;
      }
      ∷ [];
}

queue_agrees_example :
    ((id : ℕ)
      → count_where (λ row. row.model.id == id) (queue false reported_db)
        ≡ count_where (λ m. m.id == id && ltb 0 (open_report_count reported_db m.id)) three_models)
    × All (IsCounted reported_db) (queue false reported_db)
    × IsOrdered more_reported (queue false reported_db)
queue_agrees_example = queue_agrees reported_db
