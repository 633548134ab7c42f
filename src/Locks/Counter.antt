-- ===== src/Locks/Counter.antt =====
-- The counter of the programs with a spin lock, for any lock that excludes.
use networking_howto.Prelude.{
  each, total, total-all, total_change, total_same, update, update_ne, update_self, ℕ, ◌+◌, ◌*◌,
  ◌<◌, ◌≡◌, ◌^◌, Option, none, some, List, [], ◌∷◌, ltb, Bool-cases, inl, inr, ltb→lt, arith, refl,
  sym, ap, ◌∙◌, subst, u32, u64,
}
use networking_howto.Locks.Threads.{
  SpinLock, Section, loading, storing, releasing, Pc, outside, waiting, inside, System, go,
  after_attempt, thread_at, run, start,
}
use networking_howto.Locks.Excludes.{Excludes, Loaded, Rounds, extra, Loaded-outside}

-- A schedule of the first `n` threads.
abbrev pub AllBelow : ℕ → List ℕ → Type 0
AllBelow n [] = Unit
AllBelow n (t ∷ ts) = (t < n) × AllBelow n ts

-- Every thread has returned from `thread_func`.
abbrev pub AllDone : (lock : SpinLock) (num_threads num_iterations : ℕ) → System lock → Type 0
AllDone lock num_threads num_iterations s =
    (u : ℕ) → u < num_threads → (s.pc u ≡ outside) × (s.i u ≡ num_iterations)

module _ (lock : SpinLock) (num_threads num_iterations : ℕ) (excludes : Excludes lock num_threads)
    (few : num_iterations < 2 ^ 64) where
  -- The increments of thread `u` so far.
  abbrev increments : (ℕ → Pc lock.Wait) → (ℕ → ℕ) → ℕ → ℕ
  increments pc i u = i u + extra (pc u)

  record Good (s : System lock) : Type 0 where
    locked : excludes.Holds s.shared s.pc
    loaded : (u : ℕ) → u < num_threads → Loaded s.var (s.pc u)
    rounds : (u : ℕ) → u < num_threads → Rounds num_iterations (s.i u) (s.pc u)
    counted : s.var ≡ u32 (total num_threads (increments s.pc s.i))

  -- A move of thread `t` in which neither `var` nor its number of increments changes.
  move-Good :
      (s : System lock) (shared : lock.State) (t : ℕ) (p p' : Pc lock.Wait)
      → Good s
      → s.pc t ≡ p
      → excludes.Holds shared (update s.pc t p')
      → Loaded s.var p'
      → (t < num_threads → Rounds num_iterations (s.i t) p')
      → extra p' ≡ extra p
      → Good (go lock (record s { shared = shared }) t p')
  move-Good s shared t p p' good at locked loaded rounds same = record {
    locked = locked;
    loaded =
        each (λ u q. u < num_threads → Loaded s.var q) s.pc t p' (λ l. loaded)
          (λ u ne. good.loaded u);
    rounds =
        each (λ u q. u < num_threads → Rounds num_iterations (s.i u) q) s.pc t p' rounds
          (λ u ne. good.rounds u);
    counted =
        good.counted
        ∙ ap u32 (
            sym (
              total_same num_threads _ _ (λ u l.
                each (λ v q. s.i v + extra q ≡ s.i v + extra (s.pc v)) s.pc t p'
                  (ap (λ e. s.i t + e) (same ∙ ap extra (sym at))) (λ v ne. refl) u)));
  }

  store-Good :
      (s : System lock) (t value : ℕ)
      → t < num_threads
      → Good s
      → s.pc t ≡ inside (storing value)
      → Good (go lock (record s { var = u32 (value + 1) }) t (inside releasing))
  store-Good s t value l good at = record {
    locked = excludes.moves s.shared s.pc t (storing value) releasing l good.locked at;
    loaded =
        each (λ u q. u < num_threads → Loaded (u32 (value + 1)) q) s.pc t (inside releasing)
          (λ l'. tt)
          (λ u ne l'. Loaded-outside (u32 (value + 1)) (s.pc u) (λ c in_there.
            ne (
              excludes.exclusive s.shared s.pc u t c (storing value) l' l good.locked in_there
                at)));
    rounds =
        each (λ u q. u < num_threads → Rounds num_iterations (s.i u) q) s.pc t (inside releasing)
          (λ l'. subst (Rounds num_iterations (s.i t)) at (good.rounds t l))
          (λ u ne. good.rounds u);
    counted =
        let is_var = subst (Loaded s.var) at (good.loaded t l) in
        let was = good.counted in
        let change =
          total_change num_threads t (increments (update s.pc t (inside releasing)) s.i)
            (increments s.pc s.i) l
            (λ u ne. ap (λ q. s.i u + extra q) (update_ne s.pc t (inside releasing) u ne)) in
        let before = ap extra at in
        let then = ap extra (update_self s.pc t (inside releasing)) in
        omega (arith, is_var, was, change, before, then);
  }

  release-Good :
      (s : System lock) (t : ℕ)
      → t < num_threads
      → Good s
      → s.pc t ≡ inside releasing
      → Good (
          go lock
            (record s { shared = lock.release s.shared; i = update s.i t (u64 (s.i t + 1)) })
            t
            outside)
  release-Good s t l good at =
      let more : s.i t < num_iterations =
        subst (Rounds num_iterations (s.i t)) at (good.rounds t l) in
      let next : u64 (s.i t + 1) ≡ s.i t + 1 = omega (arith, more, few) in
      record {
        locked = excludes.releases s.shared s.pc t releasing l good.locked at;
        loaded =
            each (λ u q. u < num_threads → Loaded s.var q) s.pc t outside (λ l'. tt)
              (λ u ne. good.loaded u);
        rounds =
            each
              (λ u q. u < num_threads → Rounds num_iterations (update s.i t (u64 (s.i t + 1)) u) q)
              s.pc t outside
              (λ l'. let i' = update_self s.i t (u64 (s.i t + 1)) in omega (arith, i', next, more))
              (λ u ne l'.
                subst (λ j. Rounds num_iterations j (s.pc u))
                  (sym (update_ne s.i t (u64 (s.i t + 1)) u ne)) (good.rounds u l'));
        counted =
            good.counted
            ∙ ap u32 (
                sym (
                  total_same num_threads _ _ (λ u l'.
                    each
                      (λ v q. update s.i t (u64 (s.i t + 1)) v + extra q ≡ s.i v + extra (s.pc v))
                      s.pc t outside
                      (let i' = update_self s.i t (u64 (s.i t + 1)) in
                        let e = ap extra at in omega (arith, i', next, e))
                      (λ v ne.
                        ap (λ j. j + extra (s.pc v)) (update_ne s.i t (u64 (s.i t + 1)) v ne))
                      u)));
      }

  step-Good :
      (s : System lock) (t : ℕ) (p : Pc lock.Wait)
      → t < num_threads
      → Good s
      → s.pc t ≡ p
      → Good (thread_at lock num_iterations t s p)
  unfolding thread_at
  step-Good s t outside l good at = elim (Bool-cases (ltb (s.i t) num_iterations)) [
    | inl more ↦ rw more (
        move-Good s (lock.begin s.shared).0 t outside (waiting (lock.begin s.shared).1) good at
          (excludes.begins s.shared s.pc t l good.locked at) tt
          (λ l'. ltb→lt (s.i t) num_iterations more) refl)
    | inr over ↦ rw over good
  ]
  step-Good s t (waiting w) l good at =
      attempt_move (lock.attempt w s.shared).0 (lock.attempt w s.shared).1
        (excludes.attempts s.shared s.pc t w l good.locked at)
    where
      attempt_move :
          (shared : lock.State) (again : Option lock.Wait)
          → excludes.Holds shared (update s.pc t (after_attempt lock again))
          → Good (go lock (record s { shared = shared }) t (after_attempt lock again))
      attempt_move shared none locked =
          move-Good s shared t (waiting w) (inside loading) good at locked tt
            (λ l'. subst (Rounds num_iterations (s.i t)) at (good.rounds t l)) refl
      attempt_move shared (some w') locked =
          move-Good s shared t (waiting w) (waiting w') good at locked tt
            (λ l'. subst (Rounds num_iterations (s.i t)) at (good.rounds t l)) refl
  step-Good s t (inside loading) l good at =
      move-Good s s.shared t (inside loading) (inside (storing s.var)) good at
        (excludes.moves s.shared s.pc t loading (storing s.var) l good.locked at) refl
        (λ l'. subst (Rounds num_iterations (s.i t)) at (good.rounds t l)) refl
  step-Good s t (inside (storing value)) l good at = store-Good s t value l good at
  step-Good s t (inside releasing) l good at = release-Good s t l good at

  run-Good :
      (ts : List ℕ) (s : System lock)
      → AllBelow num_threads ts
      → Good s
      → Good (run lock num_iterations ts s)
  unfolding run
  run-Good [] s below good = good
  run-Good (t ∷ ts) s below good =
      run-Good ts (thread_at lock num_iterations t s (s.pc t)) below.1
        (step-Good s t (s.pc t) below.0 good refl)

  start-Good : Good (start lock)
  start-Good = record {
    locked = excludes.starts;
    loaded = λ u l. tt;
    rounds = λ u l. omega arith;
    counted =
        let none_yet = total-all num_threads 0 (λ u. 0) (λ u l. refl) in
        let product : num_threads * 0 ≡ 0 = grind arith in omega (arith, none_yet, product);
  }

  pub inside_alone :
      (ts : List ℕ) (t u : ℕ) (c c' : Section)
      → AllBelow num_threads ts
      → t < num_threads
      → u < num_threads
      → (run lock num_iterations ts (start lock)).pc t ≡ inside c
      → (run lock num_iterations ts (start lock)).pc u ≡ inside c'
      → t ≡ u
  inside_alone ts t u c c' below l l' at at' =
      let s = run lock num_iterations ts (start lock) in
      excludes.exclusive s.shared s.pc t u c c' l l'
        (run-Good ts (start lock) below start-Good).locked at at'

  pub final_var :
      (ts : List ℕ)
      → AllBelow num_threads ts
      → AllDone lock num_threads num_iterations (run lock num_iterations ts (start lock))
      → (run lock num_iterations ts (start lock)).var ≡ u32 (num_threads * num_iterations)
  final_var ts below all =
      let s = run lock num_iterations ts (start lock) in
      (run-Good ts (start lock) below start-Good).counted
      ∙ ap u32 (
          total-all num_threads num_iterations (increments s.pc s.i) (λ u l.
            let e = ap extra (all u l).0 in let rounds = (all u l).1 in omega (arith, e, rounds)))
