-- ===== src/Ingestion/Counters/Laws.antt =====
-- The items and the counters after terminalizeManualItems.
use balanz.Prelude.{ℕ, String, ◌≡◌, refl, arith, true, List, [], ◌∷◌, Option, all}
use balanz.Ingestion.Job.{IngestionJob, IngestionItem, item_check, counters_add_up}
use balanz.Ingestion.Counters.{close_items, aggregate}

-- Closing the items of a job keeps the check of every item.
pub all-close_items :
    (job : IngestionJob) (code : String) (detail : Option String) (now : ℕ)
    (items : List IngestionItem)
    → all item_check items ≡ true
    → all item_check (close_items job code detail now items) ≡ true
unfolding close_items
all-close_items job code detail now [] h = refl
all-close_items job code detail now (i ∷ items) h =
    ground (arith, all-close_items job code detail now items)

-- Where each item passes its check, each item of the job is counted once beside the total.
pub aggregate_adds_up :
    (job : IngestionJob) (items : List IngestionItem)
    → all item_check items ≡ true
    → counters_add_up (aggregate job items) ≡ true
unfolding aggregate
aggregate_adds_up job [] h = refl
aggregate_adds_up job (i ∷ items) h = ground (arith, aggregate_adds_up job items)

-- After the items of a job are closed none is pending or in process.
pub aggregate-close_items :
    (job : IngestionJob) (code : String) (detail : Option String) (now : ℕ)
    (items : List IngestionItem)
    → ((aggregate job (close_items job code detail now items)).pending_items ≡ 0)
      × ((aggregate job (close_items job code detail now items)).processing_items ≡ 0)
unfolding aggregate close_items
aggregate-close_items job code detail now [] = (refl, refl)
aggregate-close_items job code detail now (i ∷ items) =
    ground (arith, aggregate-close_items job code detail now items)
