-- ===== src/Ingestion/ManualZip/Laws.antt =====
-- What the trigger of manual ZIP jobs keeps.
use balanz.Prelude.{ℕ, String, ◌≡◌, refl, arith, true, false, List, [], ◌∷◌, Option, some, all}
use balanz.Http.{ok}
use balanz.Ingestion.Job.{
  IngestionJob, IngestionItem, JobDb, item_check, counters_add_up, is_manual, is_ended,
  is_failed_final,
}
use balanz.Ingestion.Claim.{find_job, save_job}
use balanz.Ingestion.Claim.Laws.{find-save_job, save_job-save_job}
use balanz.Ingestion.Counters.{close_items, aggregate, terminalize_manual_items, reconciled}
use balanz.Ingestion.ManualZip.{
  fires, close_zip_items, zip_counters, zip_items, zip_row, save_status,
}

all-close_zip_items :
    (new : IngestionJob) (now : ℕ) (items : List IngestionItem)
    → all item_check items ≡ true
    → all item_check (close_zip_items new now items) ≡ true
unfolding close_zip_items
all-close_zip_items new now [] h = refl
all-close_zip_items new now (i ∷ items) h = ground (arith, all-close_zip_items new now items)

-- The trigger keeps the check of every item.
pub all-zip_items :
    (now : ℕ) (old new : IngestionJob) (items : List IngestionItem)
    → all item_check items ≡ true
    → all item_check (zip_items now old new items) ≡ true
unfolding zip_items
all-zip_items now old new items h = ground (arith, all-close_zip_items new now items)

-- The items that it closes are counted once each beside the total.
zip_counters_add_up :
    (new : IngestionJob) (now : ℕ) (items : List IngestionItem)
    → all item_check items ≡ true
    → counters_add_up (zip_counters new (close_zip_items new now items)) ≡ true
unfolding zip_counters close_zip_items
zip_counters_add_up new now [] h = refl
zip_counters_add_up new now (i ∷ items) h = ground (arith, zip_counters_add_up new now items)

pub zip_row_adds_up :
    (now : ℕ) (old new : IngestionJob) (items : List IngestionItem)
    → all item_check items ≡ true
    → counters_add_up new.counters ≡ true
    → counters_add_up (zip_row now old new items).counters ≡ true
unfolding zip_row
zip_row_adds_up now old new items h k = ground (arith, zip_counters_add_up new now items h)

-- Where it does not fire the row and the items are as the statement leaves them.
pub zip_row-quiet :
    (now : ℕ) (old new : IngestionJob) (items : List IngestionItem)
    → fires old new ≡ false
    → zip_row now old new items ≡ new
unfolding zip_row
zip_row-quiet now old new items h = ground arith

pub zip_items-quiet :
    (now : ℕ) (old new : IngestionJob) (items : List IngestionItem)
    → fires old new ≡ false
    → zip_items now old new items ≡ items
unfolding zip_items
zip_items-quiet now old new items h = ground arith

pub fires-fetched :
    (old new : IngestionJob) → is_manual new.source_type ≡ false → fires old new ≡ false
unfolding fires
fires-fetched old new h = ground arith

pub fires-open : (old new : IngestionJob) → is_ended new.status ≡ false → fires old new ≡ false
unfolding fires
fires-open old new h = ground arith

-- The row that terminalizeManualItems leaves of a job that a statement has just ended as failed.
pub terminalize-save_status :
    (db : JobDb) (written now later : ℕ) (old j : IngestionJob) (code : String)
    (detail : Option String) {before : IngestionJob}
    → find_job j.id j.organization_id db.jobs ≡ some before
    → is_manual j.source_type ≡ true
    → is_failed_final j.status ≡ true
    → let items = close_items j code detail now (zip_items written old j db.items) in
      let k = reconciled (aggregate j items) later j in
      terminalize_manual_items (save_status db written old j) now later j code detail
      ≡ ok (k.version, record db { jobs = save_job k db.jobs; items = items })
unfolding terminalize_manual_items save_status zip_row
terminalize-save_status db written now later old j code detail {before} found manual final =
    let saved = zip_row written old j db.items in
    let items = close_items j code detail now (zip_items written old j db.items) in
    ground (
      arith,
      find-save_job saved db.jobs {before = before} found,
      save_job-save_job saved (reconciled (aggregate j items) later j) db.jobs refl refl,
    )
