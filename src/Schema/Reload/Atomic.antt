-- ===== src/Schema/Reload/Atomic.antt =====
-- The lock of the cache makes a replacement and a request atomic, whatever the order of their steps.
use myrest.Prelude.{
  ℕ, zero, suc, ◌≡◌, refl, sym, subst, ◌∙◌, ap, Bool, true, false, Option, none, some, List, [],
  ◌∷◌, ◌++◌, Result, ok, err, All, arith,
}
use myrest.Schema.Facts.{Catalog}
use myrest.Schema.Snapshot.{Snapshot, build_snapshot}
use myrest.Schema.Copy.{Field, Copied, copy_field-Copied}
use myrest.Schema.Reload.{
  Mutex, shared, exclusive, Thread, reloading, failed, replacing, storing, replaced, reading,
  loading, answered, Event, installed, read, Moved, step_thread, reload, lock_replace, store,
  lock_read, load, System, Call, calls_reload, calls_replace, calls_read, begin_call, built_cache,
  Step, calls, moves, Reach, here, next,
}

-- The catalogue that the last replacement has installed.
abbrev pub installed_last : Catalog → List Event → Catalog
installed_last first [] = first
installed_last first (installed catalog ∷ log) = catalog
installed_last first (read snapshot ∷ log) = installed_last first log

-- Each request has read the snapshot of the catalogue that was installed last before it was done.
abbrev pub ReadsInstalled : Catalog → List Event → Type 0
ReadsInstalled first [] = Unit
ReadsInstalled first (installed catalog ∷ log) = ReadsInstalled first log
ReadsInstalled first (read snapshot ∷ log) =
    (snapshot ≡ build_snapshot (installed_last first log)) × ReadsInstalled first log

abbrev one_more : Bool → ℕ → ℕ
one_more true n = suc n
one_more false n = n

one_more-swap : (a b : Bool) (n : ℕ) → one_more a (one_more b n) ≡ one_more b (one_more a n)
one_more-swap true true n = refl
one_more-swap true false n = refl
one_more-swap false true n = refl
one_more-swap false false n = refl

suc_ne_zero : {B : Type 0} {n : ℕ} → suc n ≡ 0 → B
suc_ne_zero h = ground arith

pred_eq : {m n : ℕ} → suc m ≡ suc n → m ≡ n
pred_eq h = omega arith

one_only : {n : ℕ} → suc n ≡ 1 → n ≡ 0
one_only h = omega arith

-- Who holds the lock, and what the cache holds while nobody writes.
abbrev Held : Mutex → ℕ → ℕ → Snapshot → Catalog → Type 0
Held (shared n) storers loaders snapshot last =
    (storers ≡ 0) × (loaders ≡ n) × (snapshot ≡ build_snapshot last)
Held exclusive storers loaders snapshot last = (storers ≡ 1) × (loaders ≡ 0)

module _ {E : Type 0} where
  abbrev is_storing : Thread E → Bool
  is_storing (storing catalog field) = true
  is_storing _ = false

  abbrev is_loading : Thread E → Bool
  is_loading (loading copy field) = true
  is_loading _ = false

  abbrev count : (Thread E → Bool) → List (Thread E) → ℕ
  count test [] = 0
  count test (thread ∷ threads) = one_more (test thread) (count test threads)

  count-middle :
      (test : Thread E → Bool) (before : List (Thread E)) (thread : Thread E)
      (after : List (Thread E))
      → count test (before ++ thread ∷ after) ≡ count test (thread ∷ before ++ after)
  count-middle test [] thread after = refl
  count-middle test (x ∷ before) thread after =
      ap (one_more (test x)) (count-middle test before thread after)
      ∙ one_more-swap (test x) (test thread) (count test (before ++ after))

  -- What a goroutine in the middle of an assignment has copied.
  abbrev HasCopied : Snapshot → Thread E → Type 0
  HasCopied snapshot (storing catalog field) = Copied (build_snapshot catalog) snapshot field
  HasCopied snapshot (loading copy field) = Copied snapshot copy field
  HasCopied snapshot _ = Unit

  All-middle :
      (P : Thread E → Type 0) (before : List (Thread E)) (thread : Thread E)
      (after : List (Thread E))
      → All P (before ++ thread ∷ after)
      → All P (thread ∷ before ++ after)
  All-middle P [] thread after h = h
  All-middle P (x ∷ before) thread after (hx, h) =
      let (ht, rest) = All-middle P before thread after h in (ht, (hx, rest))

  All-back :
      (P : Thread E → Type 0) (before : List (Thread E)) (thread : Thread E)
      (after : List (Thread E))
      → All P (thread ∷ before ++ after)
      → All P (before ++ thread ∷ after)
  All-back P [] thread after h = h
  All-back P (x ∷ before) thread after (ht, (hx, h)) = (hx, All-back P before thread after (ht, h))

  abbrev Invariant : Catalog → Mutex → Snapshot → List (Thread E) → List Event → Type 0
  Invariant first mu snapshot threads log =
      All (HasCopied snapshot) threads
      × Held mu (count is_storing threads) (count is_loading threads) snapshot
          (installed_last first log)
      × ReadsInstalled first log

  Invariant-middle :
      (first : Catalog) (mu : Mutex) (snapshot : Snapshot) (before : List (Thread E))
      (thread : Thread E) (after : List (Thread E)) (log : List Event)
      → Invariant first mu snapshot (before ++ thread ∷ after) log
      → Invariant first mu snapshot (thread ∷ before ++ after) log
  Invariant-middle first mu snapshot before thread after log (copied, held, reads) = (
    All-middle (HasCopied snapshot) before thread after copied,
    subst
        (λ n.
          Held mu n (count is_loading (thread ∷ before ++ after)) snapshot
            (installed_last first log))
        (count-middle is_storing before thread after)
        (subst
          (λ n.
            Held mu (count is_storing (before ++ thread ∷ after)) n snapshot
              (installed_last first log))
          (count-middle is_loading before thread after) held),
    reads,
  )

  Invariant-back :
      (first : Catalog) (mu : Mutex) (snapshot : Snapshot) (before : List (Thread E))
      (thread : Thread E) (after : List (Thread E)) (log : List Event)
      → Invariant first mu snapshot (thread ∷ before ++ after) log
      → Invariant first mu snapshot (before ++ thread ∷ after) log
  Invariant-back first mu snapshot before thread after log (copied, held, reads) = (
    All-back (HasCopied snapshot) before thread after copied,
    subst
        (λ n.
          Held mu n (count is_loading (before ++ thread ∷ after)) snapshot
            (installed_last first log))
        (sym (count-middle is_storing before thread after))
        (subst
          (λ n.
            Held mu (count is_storing (thread ∷ before ++ after)) n snapshot
              (installed_last first log))
          (sym (count-middle is_loading before thread after)) held),
    reads,
  )

  -- Where no goroutine is in the middle of an assignment, the snapshot may change.
  idle-HasCopied :
      (snapshot : Snapshot) (threads : List (Thread E))
      → count is_storing threads ≡ 0
      → count is_loading threads ≡ 0
      → All (HasCopied snapshot) threads
  idle-HasCopied snapshot [] a b = tt
  idle-HasCopied snapshot (storing catalog field ∷ threads) a b = ground arith
  idle-HasCopied snapshot (loading copy field ∷ threads) a b = ground arith
  idle-HasCopied snapshot (reloading source ∷ threads) a b =
      (tt, idle-HasCopied snapshot threads a b)
  idle-HasCopied snapshot (failed e ∷ threads) a b = (tt, idle-HasCopied snapshot threads a b)
  idle-HasCopied snapshot (replacing catalog ∷ threads) a b =
      (tt, idle-HasCopied snapshot threads a b)
  idle-HasCopied snapshot (replaced ∷ threads) a b = (tt, idle-HasCopied snapshot threads a b)
  idle-HasCopied snapshot (reading ∷ threads) a b = (tt, idle-HasCopied snapshot threads a b)
  idle-HasCopied snapshot (answered copy ∷ threads) a b = (tt, idle-HasCopied snapshot threads a b)

  -- What a step of the first thread leaves.
  abbrev KeepsInvariant : Catalog → List (Thread E) → List Event → Option (Moved E) → Type 0
  KeepsInvariant first others log none = Unit
  KeepsInvariant first others log (some m) =
      Invariant first m.mu m.snapshot (m.thread ∷ others) (m.events ++ log)

  reload-KeepsInvariant :
      (first : Catalog) (mu : Mutex) (snapshot : Snapshot) (source : Result E Catalog)
      (others : List (Thread E)) (log : List Event)
      → Invariant first mu snapshot (reloading source ∷ others) log
      → Invariant first mu snapshot (reload source ∷ others) log
  unfolding reload
  reload-KeepsInvariant first mu snapshot (err e) others log h = h
  reload-KeepsInvariant first mu snapshot (ok catalog) others log h = h

  lock_replace-KeepsInvariant :
      (first : Catalog) (mu : Mutex) (snapshot : Snapshot) (catalog : Catalog)
      (others : List (Thread E)) (log : List Event)
      → Invariant first mu snapshot (replacing catalog ∷ others) log
      → KeepsInvariant first others log (lock_replace mu snapshot catalog)
  unfolding lock_replace
  lock_replace-KeepsInvariant first (shared zero) snapshot catalog others log
        ((u, copied), (storers, loaders, same), reads) =
      ((tt, copied), (ap suc storers, loaders), reads)
  lock_replace-KeepsInvariant first (shared (suc n)) snapshot catalog others log h = tt
  lock_replace-KeepsInvariant first exclusive snapshot catalog others log h = tt

  store-KeepsInvariant :
      (first : Catalog) (mu : Mutex) (snapshot : Snapshot) (catalog : Catalog)
      (field : Option Field) (others : List (Thread E)) (log : List Event)
      → Invariant first mu snapshot (storing catalog field ∷ others) log
      → KeepsInvariant first others log (store mu snapshot catalog field)
  unfolding store
  store-KeepsInvariant first (shared n) snapshot catalog (some field) others log
        (copied, (storers, loaders, same), reads) =
      absurd (suc_ne_zero storers)
  store-KeepsInvariant first exclusive snapshot catalog (some field) others log
        ((before, copied), (storers, loaders), reads) =
      (
        (
          copy_field-Copied field (build_snapshot catalog) snapshot before,
          idle-HasCopied _ others (one_only storers) loaders,
        ),
        (storers, loaders),
        reads,
      )
  store-KeepsInvariant first (shared n) snapshot catalog none others log h = tt
  store-KeepsInvariant first exclusive snapshot catalog none others log
        ((whole, copied), (storers, loaders), reads) =
      ((tt, copied), (one_only storers, loaders, sym whole), reads)

  lock_read-KeepsInvariant :
      (first : Catalog) (mu : Mutex) (snapshot : Snapshot) (others : List (Thread E))
      (log : List Event)
      → Invariant first mu snapshot (reading ∷ others) log
      → KeepsInvariant first others log (lock_read mu snapshot)
  unfolding lock_read
  lock_read-KeepsInvariant first (shared n) snapshot others log
        ((u, copied), (storers, loaders, same), reads) =
      ((tt, copied), (storers, ap suc loaders, same), reads)
  lock_read-KeepsInvariant first exclusive snapshot others log h = tt

  load-KeepsInvariant :
      (first : Catalog) (mu : Mutex) (snapshot copy : Snapshot) (field : Option Field)
      (others : List (Thread E)) (log : List Event)
      → Invariant first mu snapshot (loading copy field ∷ others) log
      → KeepsInvariant first others log (load mu snapshot copy field)
  unfolding load
  load-KeepsInvariant first mu snapshot copy (some field) others log
        ((before, copied), held, reads) =
      ((copy_field-Copied field snapshot copy before, copied), held, reads)
  load-KeepsInvariant first (shared zero) snapshot copy none others log h = tt
  load-KeepsInvariant first (shared (suc n)) snapshot copy none others log
        ((whole, copied), (storers, loaders, same), reads) =
      ((tt, copied), (storers, pred_eq loaders, same), (sym whole ∙ same, reads))
  load-KeepsInvariant first exclusive snapshot copy none others log h = tt

  step_thread-KeepsInvariant :
      (first : Catalog) (mu : Mutex) (snapshot : Snapshot) (thread : Thread E)
      (others : List (Thread E)) (log : List Event)
      → Invariant first mu snapshot (thread ∷ others) log
      → KeepsInvariant first others log (step_thread mu snapshot thread)
  unfolding step_thread
  step_thread-KeepsInvariant first mu snapshot (reloading source) others log h =
      reload-KeepsInvariant first mu snapshot source others log h
  step_thread-KeepsInvariant first mu snapshot (failed e) others log h = tt
  step_thread-KeepsInvariant first mu snapshot (replacing catalog) others log h =
      lock_replace-KeepsInvariant first mu snapshot catalog others log h
  step_thread-KeepsInvariant first mu snapshot (storing catalog field) others log h =
      store-KeepsInvariant first mu snapshot catalog field others log h
  step_thread-KeepsInvariant first mu snapshot replaced others log h = tt
  step_thread-KeepsInvariant first mu snapshot reading others log h =
      lock_read-KeepsInvariant first mu snapshot others log h
  step_thread-KeepsInvariant first mu snapshot (loading copy field) others log h =
      load-KeepsInvariant first mu snapshot copy field others log h
  step_thread-KeepsInvariant first mu snapshot (answered copy) others log h = tt

  abbrev IsAtomic : Catalog → System E → Type 0
  IsAtomic first s = Invariant first s.mu s.snapshot s.threads s.log

  begin_call-IsAtomic :
      (first : Catalog) (s : System E) (call : Call E)
      → IsAtomic first s
      → IsAtomic first (record s { threads = begin_call call ∷ s.threads })
  begin_call-IsAtomic first s (calls_reload source) (copied, held, reads) =
      ((tt, copied), held, reads)
  begin_call-IsAtomic first s (calls_replace catalog) (copied, held, reads) =
      ((tt, copied), held, reads)
  begin_call-IsAtomic first s calls_read (copied, held, reads) = ((tt, copied), held, reads)

  Step-IsAtomic :
      (first : Catalog) (s u : System E) → Step s u → IsAtomic first s → IsAtomic first u
  Step-IsAtomic first s u (calls call e) h =
      subst (IsAtomic first) (sym e) (begin_call-IsAtomic first s call h)
  Step-IsAtomic first s u (moves before thread after m at step e) h =
      let ready : Invariant first s.mu s.snapshot (thread ∷ before ++ after) s.log =
        Invariant-middle first s.mu s.snapshot before thread after s.log
          (subst (λ threads. Invariant first s.mu s.snapshot threads s.log) at h) in
      let kept : KeepsInvariant first (before ++ after) s.log (some m) =
        subst (KeepsInvariant first (before ++ after) s.log) step
          (step_thread-KeepsInvariant first s.mu s.snapshot thread (before ++ after) s.log ready) in
      subst (IsAtomic first) (sym e)
        (Invariant-back first m.mu m.snapshot before m.thread after (m.events ++ s.log) kept)

  Reach-IsAtomic : (first : Catalog) {u : System E} → Reach (built_cache first) u → IsAtomic first u
  Reach-IsAtomic first here = (tt, (refl, refl, refl), tt)
  Reach-IsAtomic first (next {t} {u} reach step) =
      Step-IsAtomic first t u step (Reach-IsAtomic first reach)

  -- For every cache that is built from a catalogue, and in every state that it reaches when any
  -- goroutines call Reload, Replace and ReadSnapshot, in every order of their steps, where a snapshot
  -- is assigned field by field: each request that is done has read the snapshot of one whole
  -- catalogue, the one that the last replacement before it has installed, or else the first.
  pub Reach-ReadsInstalled :
      (first : Catalog) {u : System E} → Reach (built_cache first) u → ReadsInstalled first u.log
  Reach-ReadsInstalled first reach = (Reach-IsAtomic first reach).2
