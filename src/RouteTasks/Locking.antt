-- ===== src/RouteTasks/Locking.antt =====
-- The lock and the retries of the routing tasks (chats/apps/queues/tasks.py).
use chats_engine.Prelude.{
  ℕ, ◌≡◌, refl, ap, sym, subst, ◌∙◌, inl, inr, true, false, not, ◌&&◌, List, ◌==◌, ==_iff,
  find_first, Bool-cases, Option-cases, select, arith,
}
use chats_engine.Store.{Queue, Sector, Db, Result}
use chats_engine.RouteTasks.{
  Key, lock_key, pending_queue_key, pending_sector_key, same_key, CacheOps, World, skipped, defer,
  locked, route_queue_rooms, route_sector_rooms, route_queues,
}

same_key_refl : (k : Key) → same_key k k ≡ true
same_key_refl (lock_key a) = (==_iff a a).1 refl
same_key_refl (pending_queue_key a) = (==_iff a a).1 refl
same_key_refl (pending_sector_key a) = (==_iff a a).1 refl

pub same_key-true : (a b : Key) → same_key a b ≡ true → a ≡ b
same_key-true (lock_key a) (lock_key b) e = ap lock_key ((==_iff a b).0 e)
same_key-true (pending_queue_key a) (pending_queue_key b) e =
    ap pending_queue_key ((==_iff a b).0 e)
same_key-true (pending_sector_key a) (pending_sector_key b) e =
    ap pending_sector_key ((==_iff a b).0 e)
same_key-true (lock_key a) (pending_queue_key b) e = absurd (ground (arith, e))
same_key-true (lock_key a) (pending_sector_key b) e = absurd (ground (arith, e))
same_key-true (pending_queue_key a) (lock_key b) e = absurd (ground (arith, e))
same_key-true (pending_queue_key a) (pending_sector_key b) e = absurd (ground (arith, e))
same_key-true (pending_sector_key a) (lock_key b) e = absurd (ground (arith, e))
same_key-true (pending_sector_key a) (pending_queue_key b) e = absurd (ground (arith, e))

module _ {S : Type 0} (ops : CacheOps S) where
  released :
      (lock k : Key) (s : S)
      → ops.has lock s ≡ false
      → ops.has k (ops.delete lock (ops.add lock s)) ≡ ops.has k s
  released lock k s free =
      ops.has-delete k lock (ops.add lock s)
      ∙ ap (λ b. not (same_key lock k) && b) (ops.has-add k lock s)
      ∙ elim (Bool-cases (same_key lock k)) [
        | inl e ↦ rw e (sym (subst (λ j. ops.has j s ≡ false) (same_key-true lock k e) free))
        | inr e ↦ rw e refl
      ]

  deferred :
      (pending k : Key) (w : World S)
      → same_key pending k ≡ false
      → ops.has k (defer ops pending w).cache ≡ ops.has k w.cache
  deferred pending k w other = elim (Bool-cases (ops.has pending w.cache)) [
    | inl e ↦ rw e refl
    | inr e ↦ rw e (ops.has-add k pending w.cache ∙ rw other refl)
  ]

  locked-cache :
      (lock pending k : Key) (body : Db → Result (Unit {0}) × Db) (w : World S)
      → same_key pending k ≡ false
      → ops.has k (locked ops lock pending body w).1.cache ≡ ops.has k w.cache
  locked-cache lock pending k body w other = elim (Bool-cases (ops.has lock w.cache)) [
    | inl held ↦ rw held (deferred pending k w other)
    | inr free ↦ rw free (released lock k w.cache free)
  ]

  -- Once a retry is pending, none is scheduled.
  defer-twice :
      (pending : Key) (w : World S) → defer ops pending (defer ops pending w) ≡ defer ops pending w
  defer-twice pending w = elim (Bool-cases (ops.has pending w.cache)) [
    | inl e ↦ rw e (rw e refl)
    | inr e ↦ rw e (rw (ops.has-add pending pending w.cache) (rw (same_key_refl pending) refl))
  ]

  locked-twice :
      (lock pending : Key) (body : Db → Result (Unit {0}) × Db) (w : World S)
      → same_key pending lock ≡ false
      → ops.has lock w.cache ≡ true
      → locked ops lock pending body (locked ops lock pending body w).1
        ≡ (skipped, (locked ops lock pending body w).1)
  locked-twice lock pending body w other held =
      rw held
        (rw (deferred pending lock w other ∙ held) (ap (λ x. (skipped, x)) (defer-twice pending w)))

  module _ (route : Queue → Db → Result (Unit {0}) × Db) (sectors : List Sector)
      (queues : List Queue) (uuid : ℕ) where
    -- After a routing task of a queue or of a sector, whether it has routed, raised or been put off,
    -- the locks of all queues and sectors are held or free as they were before it.
    pub tasks-locks :
        (other : ℕ) (w : World S)
        → (ops.has (lock_key other) (route_queue_rooms ops route queues uuid w).1.cache
            ≡ ops.has (lock_key other) w.cache)
          × (ops.has (lock_key other) (route_sector_rooms ops route sectors queues uuid w).1.cache
              ≡ ops.has (lock_key other) w.cache)
    unfolding route_queue_rooms route_sector_rooms
    tasks-locks other w = (
      elim (Option-cases (find_first (λ q. q.uuid == uuid) queues)) [
        | inl e ↦ rw (e, route_queue_rooms) refl
        | inr (q, e) ↦
            rw (e, route_queue_rooms)
              (locked-cache (lock_key uuid) (pending_queue_key uuid) (lock_key other) (route q) w
                refl)
      ],
      elim (Option-cases (find_first (λ s. s.uuid == uuid) sectors)) [
        | inl e ↦ rw (e, route_sector_rooms) refl
        | inr (s, e) ↦
            rw (e, route_sector_rooms)
              (locked-cache (lock_key uuid) (pending_sector_key uuid) (lock_key other)
                (route_queues ops route (select (λ q. q.sector.uuid == uuid) queues)) w refl)
      ],
    )

    -- While the lock of a queue is held, its task leaves the database as it is, and running it again
    -- changes nothing: a second retry is not scheduled.
    route_queue_rooms-retries :
        (w : World S)
        → ops.has (lock_key uuid) w.cache ≡ true
        → ((route_queue_rooms ops route queues uuid w).1.db ≡ w.db)
          × ((route_queue_rooms ops route queues uuid
                (route_queue_rooms ops route queues uuid w).1).1
              ≡ (route_queue_rooms ops route queues uuid w).1)
    unfolding route_queue_rooms
    route_queue_rooms-retries w held =
        elim (Option-cases (find_first (λ q. q.uuid == uuid) queues)) [
          | inl e ↦ rw (e, route_queue_rooms) (refl, rw (e, route_queue_rooms) refl)
          | inr (q, e) ↦
              rw (e, route_queue_rooms)
                (
                  rw held (deferred_db w),
                  rw (e, route_queue_rooms)
                      (ap (λ x. x.1)
                        (locked-twice (lock_key uuid) (pending_queue_key uuid) (route q) w refl
                          held)),
                )
        ]
      where
        deferred_db : (w : World S) → (defer ops (pending_queue_key uuid) w).db ≡ w.db
        deferred_db w = ground arith
