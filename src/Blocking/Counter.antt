-- ===== src/Blocking/Counter.antt =====
-- What the threads of mutex.c and posixsem.c of 01_blocking_sync have counted.
use networking_howto.Mutex.{LockResult, acquired, blocked, refused, Mutex, MutexLaws}
use networking_howto.Prelude.{
  each, update, ℕ, ◌+◌, ◌*◌, ◌<◌, ◌≡◌, ◌≢◌, ◌^◌, Bool, true, false, ltb, ltb→lt, Bool-cases, inl,
  inr, Option, none, some, List, [], ◌∷◌, if◌then◌else◌, arith, refl, sym, ◌∙◌, subst, u32,
}
use mathlib.Core.Option.{some-injective}
use networking_howto.Locks.Counter.{AllBelow}
use networking_howto.Locks.Rounds.{
  Places, Counted, move-Counted, within-Counted, store-Counted, round-Counted, start-Counted,
  all-Counted,
}
use networking_howto.Blocking.{
  WorkerPc, outside, loading, storing, unlocking, Workers, after_acquire, after_release, worker_at,
  work, begin_work,
}

-- A value that was loaded is still that of `var`.
abbrev Loaded : ℕ → WorkerPc → Type 0
Loaded var outside = Unit
Loaded var loading = Unit
Loaded var (storing value) = value ≡ var
Loaded var unlocking = Unit

abbrev bound_of : WorkerPc → ℕ
bound_of outside = 0
bound_of p = 1

abbrev extra : WorkerPc → ℕ
extra unlocking = 1
extra p = 0

abbrev places : Places WorkerPc
places = record {
  Loaded = Loaded;
  bound_of = bound_of;
  extra = extra;
  outside = outside;
  outside_loaded = λ var. tt;
  outside_bound = refl;
  outside_extra = refl;
}

module _ (mutex : Mutex) (laws : MutexLaws mutex) (n num_iterations : ℕ)
    (fewer : num_iterations < 2 ^ 64) where
  -- A thread in its critical section owns the lock.
  record Good (s : Workers mutex) : Type 0 where
    counts : Counted places n num_iterations fewer s.var s.pc s.i
    owned : (t : ℕ) → s.pc t ≢ outside → laws.owner s.lock_state ≡ some t

  -- A step of the owner within its round.
  within-owned :
      (s : Workers mutex) (t : ℕ) (p p' : WorkerPc)
      → Good s
      → s.pc t ≡ p
      → p ≢ outside
      → (u : ℕ) → update s.pc t p' u ≢ outside
      → laws.owner s.lock_state ≡ some u
  within-owned s t p p' good at busy =
      each (λ u q. q ≢ outside → laws.owner s.lock_state ≡ some u) s.pc t p'
        (λ ne. good.owned t (λ e. busy (sym at ∙ e))) (λ u ne. good.owned u)

  after_acquire-Good :
      (t : ℕ) (s : Workers mutex) (result : LockResult mutex.State)
      → t < n
      → s.pc t ≡ outside
      → s.i t < num_iterations
      → mutex.lock t s.lock_state ≡ result
      → Good s
      → Good (after_acquire mutex t s result)
  after_acquire-Good t s (acquired m) l at more e good =
      let (was_free, taken) = laws.lock_acquired t s.lock_state m e in
      record {
        counts =
            move-Counted places n num_iterations fewer t outside loading at tt
              (λ l'. omega (arith, more)) refl good.counts;
        owned =
            each (λ u q. q ≢ outside → laws.owner m ≡ some u) s.pc t loading (λ ne. taken)
              (λ u ne busy. absurd (let his = good.owned u busy in cc));
      }
  after_acquire-Good t s blocked l at more e good = good
  after_acquire-Good t s refused l at more e good = record {
    counts = good.counts;
    owned = good.owned;
  }

  after_release-Good :
      (t : ℕ) (s : Workers mutex) (result : Option mutex.State)
      → t < n
      → s.pc t ≡ unlocking
      → mutex.unlock t s.lock_state ≡ result
      → Good s
      → Good (after_release mutex t s result)
  after_release-Good t s (some m) l at e good =
      let mine = good.owned t (λ h. cc) in
      let freed = laws.unlock_frees t s.lock_state m mine e in
      record {
        counts = round-Counted places n num_iterations fewer t unlocking l at refl refl good.counts;
        owned =
            each (λ u q. q ≢ outside → laws.owner m ≡ some u) s.pc t outside
              (λ ne. absurd (ne refl))
              (λ u ne busy.
                absurd (let his = good.owned u busy in ne (some-injective _ _ (sym his ∙ mine))));
      }
  after_release-Good t s none l at e good = record { counts = good.counts; owned = good.owned }

  not-Loaded : (var : ℕ) (p : WorkerPc) → ¬ (p ≢ outside) → Loaded var p
  not-Loaded var outside out = tt
  not-Loaded var loading out = tt
  not-Loaded var (storing value) out = absurd (out (λ e. cc))
  not-Loaded var unlocking out = tt

  worker_at-Good :
      (t : ℕ) (s : Workers mutex) (p : WorkerPc)
      → t < n
      → s.pc t ≡ p
      → Good s
      → Good (worker_at mutex num_iterations t s p)
  unfolding worker_at
  worker_at-Good t s outside l at good = elim (Bool-cases (ltb (s.i t) num_iterations)) [
    | inl more ↦
        rw more
          (after_acquire-Good t s (mutex.lock t s.lock_state) l at (ltb→lt _ _ more) refl good)
    | inr over ↦ rw over good
  ]
  worker_at-Good t s loading l at good = record {
    counts =
        within-Counted places n num_iterations fewer t loading (storing s.var) l at refl refl refl
          refl good.counts;
    owned = within-owned s t loading (storing s.var) good at (λ e. cc);
  }
  worker_at-Good t s (storing value) l at good = record {
    counts =
        store-Counted places n num_iterations fewer t value (storing value) unlocking l at
          (subst (Loaded s.var) at (good.counts.loaded t l)) refl refl refl refl tt
          (λ u l' ne.
            not-Loaded (u32 (value + 1)) (s.pc u)
              (λ busy. ne (some-injective _ _ (sym (good.owned u busy) ∙ good.owned t (λ e. cc)))))
          good.counts;
    owned = within-owned s t (storing value) unlocking good at (λ e. cc);
  }
  worker_at-Good t s unlocking l at good =
      after_release-Good t s (mutex.unlock t s.lock_state) l at refl good

  work-Good :
      (ts : List ℕ) (s : Workers mutex)
      → AllBelow n ts
      → Good s
      → Good (work mutex num_iterations ts s)
  unfolding work
  work-Good [] s below good = good
  work-Good (t ∷ ts) s below good =
      work-Good ts (if s.exited then s else worker_at mutex num_iterations t s (s.pc t)) below.1
        (either s.exited)
    where
      either : (b : Bool) → Good (if b then s else worker_at mutex num_iterations t s (s.pc t))
      either true = good
      either false = worker_at-Good t s (s.pc t) below.0 refl good

  begin_work-Good : Good (begin_work mutex)
  begin_work-Good = record {
    counts = start-Counted places n num_iterations fewer;
    owned = λ t ne. absurd (ne refl);
  }

  -- For any lock of which the documentation holds, fewer than 2^64 rounds and any order of the
  -- accesses: once every thread has returned, `var` is the number of threads times the number of
  -- rounds, reduced to 32 bits.
  pub blocking_counts :
      (ts : List ℕ)
      → AllBelow n ts
      → let s = work mutex num_iterations ts (begin_work mutex) in
        ((u : ℕ) → u < n → (s.pc u ≡ outside) × (s.i u ≡ num_iterations))
        → s.var ≡ u32 (n * num_iterations)
  blocking_counts ts below returned =
      all-Counted places n num_iterations fewer
        (work-Good ts (begin_work mutex) below begin_work-Good).counts returned
