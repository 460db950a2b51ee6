-- ===== src/Queue/Broker/Laws.antt =====
-- The lock of a full run: how long it excludes others, and what its release removes.
use context_lens.Prelude.{
  ℕ, ◌+◌, ◌≡◌, ◌≤◌, refl, ◌∙◌, true, false, List, [], ◌∷◌, arith, ok, ltb, suc,
}
use context_lens.Trace.Store.{rows_of, delete_row}
use context_lens.Queue.Broker.{
  Broker, Lock, live, lock_present, delete_lock, acquire_lock, wait, lock_ttl_sec,
}

rows_of-live-delete :
    (run_id now : ℕ) (ls : List Lock)
    → rows_of
        (λ (l : Lock). l.run_id)
        run_id
        (live now (delete_row (λ (l : Lock). l.run_id) run_id ls))
      ≡ []
unfolding live delete_row rows_of
rows_of-live-delete run_id now [] = refl
rows_of-live-delete run_id now (l ∷ ls) = ground (arith, rows_of-live-delete run_id now ls)

module _ (run_id : ℕ) (b : Broker) where
  pub present-delete : lock_present run_id (delete_lock run_id b) ≡ false
  unfolding lock_present delete_lock
  present-delete = rw (rows_of-live-delete run_id b.now b.locks) refl

  -- the broker with a new lock
  pub locked : Broker
  locked = record b {
    locks =
        record { run_id = run_id; expires_at = b.now + lock_ttl_sec }
        ∷ delete_row (λ (l : Lock). l.run_id) run_id b.locks;
  }

  pub acquired :
      {b' : Broker}
      → acquire_lock run_id b ≡ ok (true, b')
      → (b.reachable ≡ true) × (lock_present run_id b ≡ false) × (b' ≡ locked)
  unfolding acquire_lock locked
  acquired h = (ground arith, ground arith, ground arith)

  present-later : (d : ℕ) → lock_present run_id (wait d locked) ≡ ltb d lock_ttl_sec
  unfolding lock_present wait locked live rows_of
  present-later d = ground (arith, rows_of-live-delete run_id (b.now + d) b.locks)

  -- on a broker without the key
  pub acquire-free :
      b.reachable ≡ true → lock_present run_id b ≡ false → acquire_lock run_id b ≡ ok (true, locked)
  unfolding acquire_lock locked
  acquire-free up free = ground arith

  pub present-locked : lock_present run_id locked ≡ true
  unfolding locked lock_present live rows_of
  present-locked = ground arith

taken :
    (run_id : ℕ) (c : Broker)
    → c.reachable ≡ true
    → lock_present run_id c ≡ false
    → (c' : Broker) × (acquire_lock run_id c ≡ ok (true, c'))
      × (lock_present run_id c' ≡ true)
      × (lock_present run_id (delete_lock run_id c') ≡ false)
taken run_id c up free = (
  locked run_id c,
  acquire-free run_id c up free,
  present-locked run_id c,
  present-delete run_id (locked run_id c),
)

module _ (run_id : ℕ) (b : Broker) where
  reachable-later : (d : ℕ) → (wait d (locked run_id b)).reachable ≡ b.reachable
  unfolding wait locked
  reachable-later d = refl

  again :
      (d : ℕ)
      → b.reachable ≡ true
      → lock_present run_id (wait d (locked run_id b)) ≡ true
      → acquire_lock run_id (wait d (locked run_id b)) ≡ ok (false, wait d (locked run_id b))
  unfolding acquire_lock
  again d up held = ground (arith, reachable-later d)

  -- When a worker has the lock, a second worker that comes before the time to live has passed does
  -- not get it, and leaves the broker as it is.
  pub acquire-excludes :
      {b' : Broker} (d : ℕ)
      → acquire_lock run_id b ≡ ok (true, b')
      → suc d ≤ lock_ttl_sec
      → acquire_lock run_id (wait d b') ≡ ok (false, wait d b')
  acquire-excludes d h le =
      let (up, free, e) = acquired run_id b h in
      rw (e) (again d up (present-later run_id b d ∙ ground arith))

  -- When a worker has the lock, a second worker that comes when the time to live has passed gets it,
  -- and the deletion of the key by the first worker, which has not ended, removes it.
  pub release-removes :
      {b' : Broker} (d : ℕ)
      → acquire_lock run_id b ≡ ok (true, b')
      → lock_ttl_sec ≤ d
      → (b'' : Broker) × (acquire_lock run_id (wait d b') ≡ ok (true, b''))
        × (lock_present run_id b'' ≡ true)
        × (lock_present run_id (delete_lock run_id b'') ≡ false)
  release-removes d h le =
      let (up, free, e) = acquired run_id b h in
      let gone : lock_present run_id (wait d (locked run_id b)) ≡ false =
        present-later run_id b d ∙ ground arith in
      rw (e) (taken run_id (wait d (locked run_id b)) (reachable-later d ∙ up) gone)
