-- ===== src/Schema/Reload.antt =====
-- internal/schemacache: the cache under concurrent replacements, reloads and requests (cache.go and
-- reloader.go). A goroutine runs step by step, and any other may run between two of its steps; a
-- Snapshot is assigned field by field. What the database gives to a reload is the input of its thread.
pub mod Atomic
pub mod Runs
use myrest.Prelude.{ℕ, zero, suc, ◌≡◌, Option, none, some, List, [], ◌∷◌, ◌++◌, Result, ok, err}
use myrest.Schema.Facts.{Catalog}
use myrest.Schema.Snapshot.{Snapshot, build_snapshot}
use myrest.Schema.Copy.{Field, the_tables, next_field, copy_field}

-- A sync.RWMutex: how many goroutines hold it for reading, or that one holds it for writing.
-- A Lock that waits does not hold back an RLock here, which allows more orders than Go does.
pub data Mutex : Type 0 where
  shared : ℕ → Mutex
  exclusive : Mutex

abbrev pub zero_snapshot : Snapshot
zero_snapshot = record {
  tables = [];
  views = [];
  view_set = [];
  updatable_views = [];
  comments = [];
  columns = [];
  keys = [];
  foreign_keys = [];
  routines = [];
  routines_by_id = [];
  table_privileges = [];
  routine_privileges = [];
}

-- A goroutine in Reload, Replace or ReadSnapshot: where it stands. The field is the one that it
-- assigns next, and none when the assignment is done.
pub data Thread (E : Type 0) : Type 0 where
  reloading : Result E Catalog → Thread E
  failed : E → Thread E
  replacing : Catalog → Thread E
  storing : Catalog → Option Field → Thread E
  replaced : Thread E
  reading : Thread E
  loading : Snapshot → Option Field → Thread E
  answered : Snapshot → Thread E

-- What a goroutine has done when it gives the lock back.
pub data Event : Type 0 where
  installed : Catalog → Event
  read : Snapshot → Event

-- The lock and the snapshot of the cache, the thread, and what it has done.
pub record Moved (E : Type 0) : Type 0 where
  pub mu : Mutex
  pub snapshot : Snapshot
  pub thread : Thread E
  pub events : List Event

module _ {E : Type 0} where
  abbrev pub moved : Mutex → Snapshot → Thread E → List Event → Option (Moved E)
  moved mu snapshot thread events =
      some (record { mu = mu; snapshot = snapshot; thread = thread; events = events })

  -- Reloader.Reload: Replace only where the catalogue was read without an error.
  unfoldable pub reload : Result E Catalog → Thread E
  reload (err e) = failed e
  reload (ok catalog) = replacing catalog

  -- Cache.Replace: Lock, the assignment of the snapshot that was built, Unlock. A Lock waits while
  -- the lock is held; what the lock does not allow has no step.
  unfoldable pub lock_replace : Mutex → Snapshot → Catalog → Option (Moved E)
  lock_replace (shared zero) snapshot catalog =
      moved exclusive snapshot (storing catalog (some the_tables)) []
  lock_replace (shared (suc n)) snapshot catalog = none
  lock_replace exclusive snapshot catalog = none

  unfoldable pub store : Mutex → Snapshot → Catalog → Option Field → Option (Moved E)
  store mu snapshot catalog (some field) =
      moved mu (copy_field field (build_snapshot catalog) snapshot)
        (storing catalog (next_field field)) []
  store exclusive snapshot catalog none =
      moved (shared 0) snapshot replaced (installed catalog ∷ [])
  store (shared n) snapshot catalog none = none

  -- ReadSnapshot: RLock, which waits while the lock is held for writing, the copy of the snapshot,
  -- and RUnlock.
  unfoldable pub lock_read : Mutex → Snapshot → Option (Moved E)
  lock_read (shared n) snapshot =
      moved (shared (suc n)) snapshot (loading zero_snapshot (some the_tables)) []
  lock_read exclusive snapshot = none

  unfoldable pub load : Mutex → Snapshot → Snapshot → Option Field → Option (Moved E)
  load mu snapshot copy (some field) =
      moved mu snapshot (loading (copy_field field snapshot copy) (next_field field)) []
  load (shared (suc n)) snapshot copy none =
      moved (shared n) snapshot (answered copy) (read copy ∷ [])
  load (shared zero) snapshot copy none = none
  load exclusive snapshot copy none = none

  -- The next step of a thread; none when it waits or has returned.
  unfoldable pub step_thread : Mutex → Snapshot → Thread E → Option (Moved E)
  unfolding reload lock_replace store lock_read load
  step_thread mu snapshot (reloading source) = moved mu snapshot (reload source) []
  step_thread mu snapshot (failed e) = none
  step_thread mu snapshot (replacing catalog) = lock_replace mu snapshot catalog
  step_thread mu snapshot (storing catalog field) = store mu snapshot catalog field
  step_thread mu snapshot replaced = none
  step_thread mu snapshot reading = lock_read mu snapshot
  step_thread mu snapshot (loading copy field) = load mu snapshot copy field
  step_thread mu snapshot (answered copy) = none

-- The cache, its goroutines, and what they have done, the newest first.
pub record System (E : Type 0) : Type 0 where
  pub mu : Mutex
  pub snapshot : Snapshot
  pub threads : List (Thread E)
  pub log : List Event

-- The calls that a goroutine can make.
pub data Call (E : Type 0) : Type 0 where
  calls_reload : Result E Catalog → Call E
  calls_replace : Catalog → Call E
  calls_read : Call E

module _ {E : Type 0} where
  abbrev pub begin_call : Call E → Thread E
  begin_call (calls_reload source) = reloading source
  begin_call (calls_replace catalog) = replacing catalog
  begin_call calls_read = reading

  -- Build: a cache with the snapshot of a catalogue, before any call.
  abbrev pub built_cache : Catalog → System E
  built_cache catalog = record {
    mu = shared 0;
    snapshot = build_snapshot catalog;
    threads = [];
    log = [];
  }

  abbrev pub after_move : System E → List (Thread E) → Moved E → List (Thread E) → System E
  after_move s before m after = record {
    mu = m.mu;
    snapshot = m.snapshot;
    threads = before ++ m.thread ∷ after;
    log = m.events ++ s.log;
  }

  -- A call begins, or one of the goroutines makes its next step.
  pub data Step (s u : System E) : Type 0 where
    calls : (call : Call E) → u ≡ record s { threads = begin_call call ∷ s.threads } → Step s u
    moves :
        (before : List (Thread E)) (thread : Thread E) (after : List (Thread E)) (m : Moved E)
        → s.threads ≡ before ++ thread ∷ after
        → step_thread s.mu s.snapshot thread ≡ some m
        → u ≡ after_move s before m after
        → Step s u

  pub data Reach (s : System E) : System E → Type 0 where
    here : Reach s s
    next : {t u : System E} → Reach s t → Step t u → Reach s u
