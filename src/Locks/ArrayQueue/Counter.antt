-- ===== src/Locks/ArrayQueue/Counter.antt =====
-- The counter of arrayqueue-lock.c.
use networking_howto.Prelude.{
  ℕ, ◌+◌, ◌≤◌, ◌<◌, ◌≡◌, ◌≢◌, ◌^◌, true, ◌==◌, ltb, ltb→lt, Bool-cases, inl, inr, List, [], ◌∷◌,
  arith, refl, ap, subst, u32,
}
use networking_howto.Locks.Threads.{loading, storing, releasing}
use networking_howto.Locks.Counter.{AllBelow}
use networking_howto.Locks.Rounds.{
  Places, Counted, move-Counted, within-Counted, store-Counted, round-Counted, start-Counted,
}
use networking_howto.Locks.ArrayQueue.{
  Pc, outside, spinning, inside, to_pass, System, aql_acquire_first, aql_acquire_test,
  aql_release_first, aql_release_second, next_iteration, thread_at, run, start,
}
use networking_howto.Locks.ArrayQueue.Order.{owns, Queue, owner_alone, start-Queue}
use networking_howto.Locks.ArrayQueue.Turns.{thread_at-Queue}

-- A value that was loaded is still that of `var`.
abbrev Loaded : ℕ → Pc → Type 0
Loaded var outside = Unit
Loaded var (spinning index iteration) = Unit
Loaded var (inside loading) = Unit
Loaded var (inside (storing value)) = value ≡ var
Loaded var (inside releasing) = Unit
Loaded var (to_pass index) = Unit

-- Whether a round is to be finished, and whether its increment has been made.
abbrev bound_of : Pc → ℕ
bound_of outside = 0
bound_of (spinning index iteration) = 1
bound_of (inside c) = 1
bound_of (to_pass index) = 1

abbrev extra : Pc → ℕ
extra outside = 0
extra (spinning index iteration) = 0
extra (inside loading) = 0
extra (inside (storing value)) = 0
extra (inside releasing) = 1
extra (to_pass index) = 1

Loaded-not_owned : (var : ℕ) (p : Pc) → owns p ≢ true → Loaded var p
Loaded-not_owned var outside out = tt
Loaded-not_owned var (spinning index iteration) out = tt
Loaded-not_owned var (inside c) out = absurd (out refl)
Loaded-not_owned var (to_pass index) out = absurd (out refl)

abbrev pub places : Places Pc
places = record {
  Loaded = Loaded;
  bound_of = bound_of;
  extra = extra;
  outside = outside;
  outside_loaded = λ var. tt;
  outside_bound = refl;
  outside_extra = refl;
}

module _ (k n : ℕ) (narrow : k < 16) (few : n ≤ 2 ^ k) (num_iterations : ℕ)
    (fewer : num_iterations < 2 ^ 64) where
  abbrev Good : System → Type 0
  Good s = Counted places n num_iterations fewer s.var s.pc s.i

  test-Good :
      (s : System) (t index iteration : ℕ)
      → t < n
      → s.pc t ≡ spinning index iteration
      → Good s
      → Good (aql_acquire_test s t index iteration)
  unfolding aql_acquire_test
  test-Good s t index iteration l at good = elim (Bool-cases (s.lock.available index == 0)) [
    | inl down ↦ rw down (
        within-Counted places n num_iterations fewer t (spinning index iteration)
          (spinning index (next_iteration iteration)) l at refl refl tt refl good)
    | inr up ↦ rw up (
        within-Counted places n num_iterations fewer t (spinning index iteration) (inside loading) l
          at refl refl tt refl good)
  ]

  thread_at-Good :
      (t : ℕ) (s : System) (p : Pc)
      → t < n
      → s.pc t ≡ p
      → Queue k n narrow few s
      → Good s
      → Good (thread_at num_iterations t s p)
  unfolding thread_at aql_acquire_first aql_release_first aql_release_second
  thread_at-Good t s outside l at q good = elim (Bool-cases (ltb (s.i t) num_iterations)) [
    | inl more ↦
        let less = ltb→lt (s.i t) num_iterations more in
        rw more (
          move-Counted places n num_iterations fewer t outside _ at tt (λ l'. omega (arith, less))
            refl good)
    | inr over ↦ rw over good
  ]
  thread_at-Good t s (spinning index iteration) l at q good =
      test-Good s t index iteration l at good
  thread_at-Good t s (inside loading) l at q good =
      within-Counted places n num_iterations fewer t (inside loading) (inside (storing s.var)) l at
        refl refl refl refl good
  thread_at-Good t s (inside (storing value)) l at q good =
      store-Counted places n num_iterations fewer t value (inside (storing value))
        (inside releasing) l at (subst (Loaded s.var) at (good.loaded t l)) refl refl refl refl tt
        (λ u l' ne.
          Loaded-not_owned (u32 (value + 1)) (s.pc u)
            (λ his. ne (owner_alone k n narrow few s u t q l' l his (ap owns at))))
        good
  thread_at-Good t s (inside releasing) l at q good =
      within-Counted places n num_iterations fewer t (inside releasing) (to_pass (s.index t)) l at
        refl refl tt refl good
  thread_at-Good t s (to_pass index) l at q good =
      round-Counted places n num_iterations fewer t (to_pass index) l at refl refl good

  run-Good :
      (ts : List ℕ) (s : System)
      → AllBelow n ts
      → Queue k n narrow few s
      → Good s
      → Good (run num_iterations ts s)
  unfolding run
  run-Good [] s below q good = good
  run-Good (t ∷ ts) s below q good =
      run-Good ts (thread_at num_iterations t s (s.pc t)) below.1
        (thread_at-Queue k n narrow few num_iterations t s (s.pc t) below.0 refl q)
        (thread_at-Good t s (s.pc t) below.0 refl q good)

  pub reached-Good : (ts : List ℕ) → AllBelow n ts → Good (run num_iterations ts (start (2 ^ k)))
  reached-Good ts below =
      run-Good ts (start (2 ^ k)) below (start-Queue k n narrow few)
        (start-Counted places n num_iterations fewer)
