-- ===== src/Deletion/Examples.antt =====
-- Tests of the deletion of queues and sectors, and its theorems at a small table.
use chats_engine.Prelude.{ℕ, ◌≡◌, refl, true, false, none, some, [], ◌∷◌}
use chats_engine.Store.{Queue, ok}
use chats_engine.Store.Samples.{sector, queue, db}
use chats_engine.Queues.Router.{Turn}
use chats_engine.Bulk.{Outside}
use chats_engine.Deletion.{
  a_queue, a_sector, State, Request, destroy, both_given, target_in_subject, check_target,
}
use chats_engine.Deletion.Destroyed.{Deletes, destroy-Deletes}
use chats_engine.Deletion.NoneOpen.{IsEmptied, destroy-IsEmptied}

abbrev outside : Outside
outside = record {
  use_weni_flows = false;
  is_feature_active = λ p. true;
  get_ticketer_by_sector = λ p s. some 900;
  fails = λ e db. none;
  use_celery = true;
  run = λ q db. (ok tt, db);
}

abbrev quiet : ℕ → Turn
quiet n = record { now = 99; draw = λ k. 0; others = λ db. db }

abbrev sales : Queue
sales = record { uuid = 101; sector = record sector { uuid = 11 } }

abbrev tables : State
tables = record { db = db; queues = queue ∷ sales ∷ []; deleted_sectors = [] }

-- The rooms of queue 100 go to queue 101.
abbrev request : Request
request = record {
  user = 7;
  transfer_to_queue = some 101;
  end_all_chats = false;
  flows_status = 200;
}

abbrev both : Request
both = record request { end_all_chats = true }

refused_both : destroy outside quiet 50 50 (a_queue queue) both tables ≡ (ok both_given, tables)
unfolding destroy
refused_both = refl

-- A queue of the sector that is to be deleted is no target.
refused_target :
    destroy outside quiet 50 50
      (a_sector sector)
      (record request { transfer_to_queue = some 100 })
      tables
    ≡ (ok target_in_subject, tables)
unfolding destroy check_target
refused_target = refl

destroy-Deletes_example :
    Deletes (a_queue queue) tables (destroy outside quiet 50 50 (a_queue queue) request tables)
destroy-Deletes_example = destroy-Deletes outside quiet 50 50 (a_queue queue) request tables

destroy-IsEmptied_example :
    IsEmptied (a_queue queue) (destroy outside quiet 50 2 (a_queue queue) request tables)
destroy-IsEmptied_example =
    destroy-IsEmptied outside quiet 50 2 (a_queue queue) refl (λ n db. refl) request tables
