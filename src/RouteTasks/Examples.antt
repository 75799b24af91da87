-- ===== src/RouteTasks/Examples.antt =====
-- Tests of chats/apps/queues/tasks.py, and its theorems at a cache that is a list of keys.
use chats_engine.Prelude.{
  ◌≡◌, refl, Bool, true, false, not, ◌&&◌, ◌||◌, List, [], ◌∷◌, any, select, arith, ap, subst, ◌∙◌,
  inl, inr, Bool-cases,
}
use chats_engine.Store.{Db, Queue, Result, err, closed_room}
use chats_engine.Store.Samples.{sector, queue, db}
use chats_engine.RouteTasks.{
  Key, lock_key, pending_queue_key, same_key, CacheOps, World, skipped, raised, route_queue_rooms,
  route_sector_rooms,
}
use chats_engine.RouteTasks.Locking.{same_key-true, tasks-locks}

abbrev has : Key → List Key → Bool
has k s = any (λ j. same_key j k) s

abbrev delete : Key → List Key → List Key
delete j s = select (λ i. not (same_key j i)) s

has-delete : (k j : Key) (s : List Key) → has k (delete j s) ≡ (not (same_key j k) && has k s)
has-delete k j [] = ground arith
has-delete k j (i ∷ s) = elim (Bool-cases (same_key j i)) [
  | inl hit ↦ rw hit (
      has-delete k j s
      ∙ subst
          (λ x. (not (same_key j k) && has k s) ≡ (not (same_key j k) && (same_key x k || has k s)))
          (same_key-true j i hit) (gone (same_key j k) (has k s)))
  | inr miss ↦ rw miss (
      ap (λ b. same_key i k || b) (has-delete k j s) ∙ elim (Bool-cases (same_key i k)) [
        | inl e ↦ rw e (rw (subst (λ x. same_key j x ≡ false) (same_key-true i k e) miss) refl)
        | inr e ↦ rw e refl
      ])
]
  where
    gone : (b h : Bool) → (not b && h) ≡ (not b && (b || h))
    gone true h = refl
    gone false h = refl

abbrev ops : CacheOps (List Key)
ops = record {
  has = has;
  add = λ j s. j ∷ s;
  delete = delete;
  has-add = λ k j s. refl;
  has-delete = has-delete;
}

-- Routing that raises.
abbrev fails : Queue → Db → Result (Unit {0}) × Db
fails q db = (err closed_room, db)

abbrev idle : World (List Key)
idle = record { cache = []; db = db; scheduled = [] }

abbrev busy : World (List Key)
busy = record { cache = lock_key 100 ∷ []; db = db; scheduled = [] }

raises : route_queue_rooms ops fails (queue ∷ []) 100 idle ≡ (raised closed_room, idle)
unfolding route_queue_rooms
raises = refl

puts_off : route_queue_rooms ops fails (queue ∷ []) 100 busy ≡ (
  skipped,
  record busy {
    cache = pending_queue_key 100 ∷ lock_key 100 ∷ [];
    scheduled = pending_queue_key 100 ∷ [];
  },
)
unfolding route_queue_rooms
puts_off = refl

tasks-locks_example :
    (has (lock_key 100) (route_queue_rooms ops fails (queue ∷ []) 100 idle).1.cache ≡ false)
    × (has (lock_key 100) (route_sector_rooms ops fails (sector ∷ []) (queue ∷ []) 100 idle).1.cache
        ≡ false)
tasks-locks_example = tasks-locks ops fails (sector ∷ []) (queue ∷ []) 100 100 idle
