-- ===== src/Futex/Counter.antt =====
-- The counter of futex.c, under the ownership of the mutex.
use networking_howto.Prelude.{
  update, update_ne, ℕ, ◌+◌, ◌<◌, ◌≡◌, ◌≢◌, ◌^◌, List, [], ◌∷◌, ◌==◌, ltb, Bool-cases, Option-cases,
  inl, inr, ltb→lt, arith, refl, sym, ap, ◌∙◌, subst, u32,
}
use networking_howto.Locks.Rounds.{
  Counted, move-Counted, within-Counted, store-Counted, round-Counted, start-Counted,
}
use networking_howto.Futex.{
  checking, checking_free, checking_wq, loading, storing, unlocking, Pc, outside, exchanging,
  to_wait, asleep, inside, to_store, to_wake, System, is_asleep, Pick, lock_first, lock_exchange,
  futex_wait, unlock_first, futex_wake, thread_at, Event, turn, signal, step, run, start,
}
use networking_howto.Futex.Places.{Loaded, bound_of, extra, Loaded-not_owned, places}
use networking_howto.Futex.Ownership.{owns, Owned}
use networking_howto.Futex.Kept.{Picks, Of, AllOf, Kept}
use networking_howto.Futex.Invariant.{step-Kept, start-Kept}
use networking_howto.Futex.Sleepers.{asleep_if}

module _ (n num_iterations : ℕ) (few : num_iterations < 2 ^ 64) where
  within :
      {var : ℕ} {pc : ℕ → Pc} {i : ℕ → ℕ} (t : ℕ) (p p' : Pc)
      → t < n
      → pc t ≡ p
      → bound_of p ≡ 1
      → bound_of p' ≡ 1
      → Loaded var p'
      → extra p' ≡ extra p
      → Counted places n num_iterations few var pc i
      → Counted places n num_iterations few var (update pc t p') i
  within = within-Counted places n num_iterations few

  abbrev Good : System → Type 0
  Good s = Counted places n num_iterations few s.var s.pc s.i

  enter-Good :
      (s : System) (t : ℕ)
      → t < n
      → s.pc t ≡ outside
      → s.i t < num_iterations
      → Good s
      → Good (lock_first s t)
  unfolding lock_first
  enter-Good s t l at more good = elim (Bool-cases (s.mutex == 0)) [
    | inl free ↦ rw free (
        move-Counted places n num_iterations few t outside (inside checking) at tt
          (λ l'. omega (arith, more)) refl good)
    | inr taken ↦ rw taken (elim (Bool-cases (s.mutex == 2)) [
      | inl full ↦ rw full (
          move-Counted places n num_iterations few t outside to_wait at tt
            (λ l'. omega (arith, more)) refl good)
      | inr single ↦ rw single (
          move-Counted places n num_iterations few t outside exchanging at tt
            (λ l'. omega (arith, more)) refl good)
    ])
  ]

  exchange-Good :
      (s : System) (t : ℕ) → t < n → s.pc t ≡ exchanging → Good s → Good (lock_exchange s t)
  unfolding lock_exchange
  exchange-Good s t l at good = elim (Bool-cases (s.mutex == 0)) [
    | inl free ↦ rw free (within t exchanging (inside checking) l at refl refl tt refl good)
    | inr taken ↦ rw taken (within t exchanging to_wait l at refl refl tt refl good)
  ]

  wait-Good : (s : System) (t : ℕ) → t < n → s.pc t ≡ to_wait → Good s → Good (futex_wait s t)
  unfolding futex_wait
  wait-Good s t l at good = elim (Bool-cases (s.mutex == 2)) [
    | inl full ↦ rw full (within t to_wait asleep l at refl refl tt refl good)
    | inr changed ↦ rw changed (within t to_wait exchanging l at refl refl tt refl good)
  ]

  unlock-Good :
      (s : System) (t : ℕ) → t < n → s.pc t ≡ inside unlocking → Good s → Good (unlock_first s t)
  unfolding unlock_first
  unlock-Good s t l at good = elim (Bool-cases (s.mutex == 1)) [
    | inl single ↦
        rw single
          (round-Counted places n num_iterations few t (inside unlocking) l at refl refl good)
    | inr full ↦ rw full (within t (inside unlocking) to_store l at refl refl tt refl good)
  ]

  wake-Good :
      (pick : Pick) (s : System) (t : ℕ)
      → Picks n pick
      → t < n
      → s.pc t ≡ to_wake
      → Good s
      → Good (futex_wake pick s t)
  unfolding futex_wake
  wake-Good pick s t picks l at good = elim (Option-cases (pick (λ u. is_asleep (s.pc u)))) [
    | inl e ↦ rw e (round-Counted places n num_iterations few t to_wake l at refl refl good)
    | inr (u, e) ↦
        let (lu, sleeping) = picks.someone (λ v. is_asleep (s.pc v)) u e in
        let at_u = asleep_if (s.pc u) sleeping in
        let apart : t ≢ u =
          λ same. let clash : to_wake ≡ asleep = sym at ∙ ap s.pc same ∙ at_u in cc in
        rw e (
          round-Counted places n num_iterations few t to_wake l
            (update_ne s.pc u exchanging t apart ∙ at) refl refl
            (within u asleep exchanging lu at_u refl refl tt refl good))
  ]

  thread_at-Good :
      (pick : Pick) (t : ℕ) (s : System) (p : Pc)
      → Picks n pick
      → t < n
      → s.pc t ≡ p
      → Owned n s.mutex s.pc
      → Good s
      → Good (thread_at num_iterations pick t s p)
  unfolding thread_at
  thread_at-Good pick t s outside picks l at owned good =
      elim (Bool-cases (ltb (s.i t) num_iterations)) [
        | inl more ↦ rw more (enter-Good s t l at (ltb→lt (s.i t) num_iterations more) good)
        | inr over ↦ rw over good
      ]
  thread_at-Good pick t s exchanging picks l at owned good = exchange-Good s t l at good
  thread_at-Good pick t s to_wait picks l at owned good = wait-Good s t l at good
  thread_at-Good pick t s asleep picks l at owned good = good
  thread_at-Good pick t s (inside checking) picks l at owned good =
      elim (Bool-cases (s.mutex == 1)) [
        | inl single ↦
            rw single (within t (inside checking) (inside loading) l at refl refl tt refl good)
        | inr full ↦
            rw full (within t (inside checking) (inside checking_free) l at refl refl tt refl good)
      ]
  thread_at-Good pick t s (inside checking_free) picks l at owned good =
      elim (Bool-cases (s.mutex == 0)) [
        | inl free ↦
            rw free (within t (inside checking_free) (inside loading) l at refl refl tt refl good)
        | inr taken ↦
            rw taken
              (within t (inside checking_free) (inside checking_wq) l at refl refl tt refl good)
      ]
  thread_at-Good pick t s (inside checking_wq) picks l at owned good =
      within t (inside checking_wq) (inside loading) l at refl refl tt refl good
  thread_at-Good pick t s (inside loading) picks l at owned good =
      within t (inside loading) (inside (storing s.var)) l at refl refl refl refl good
  thread_at-Good pick t s (inside (storing value)) picks l at owned good =
      store-Counted places n num_iterations few t value (inside (storing value)) (inside unlocking)
        l at (subst (Loaded s.var) at (good.loaded t l)) refl refl refl refl tt
        (λ u l' ne.
          Loaded-not_owned (u32 (value + 1)) (s.pc u)
            (λ his. ne (owned.alone u t l' l his (ap owns at))))
        good
  thread_at-Good pick t s (inside unlocking) picks l at owned good = unlock-Good s t l at good
  thread_at-Good pick t s to_store picks l at owned good =
      within t to_store to_wake l at refl refl tt refl good
  thread_at-Good pick t s to_wake picks l at owned good = wake-Good pick s t picks l at good

  step-Good :
      (e : Event) (s : System)
      → Of n e
      → Owned n s.mutex s.pc
      → Good s
      → Good (step num_iterations e s)
  unfolding step
  step-Good (turn t pick) s mine owned good =
      thread_at-Good pick t s (s.pc t) mine.1 mine.0 refl owned good
  step-Good (signal t) s mine owned good = elim (Bool-cases (is_asleep (s.pc t))) [
    | inl sleeping ↦
        rw sleeping
          (within t asleep exchanging mine (asleep_if (s.pc t) sleeping) refl refl tt refl good)
    | inr awake ↦ rw awake good
  ]

  run-Good :
      (es : List Event) (s : System)
      → AllOf n es
      → Kept n s
      → Good s
      → Good (run num_iterations es s)
  unfolding run
  run-Good [] s all kept good = good
  run-Good (e ∷ es) s all kept good =
      run-Good es (step num_iterations e s) all.1 (step-Kept n num_iterations e s all.0 kept)
        (step-Good e s all.0 kept.owned good)

  pub reached-Good : (es : List Event) → AllOf n es → Good (run num_iterations es start)
  reached-Good es all =
      run-Good es start all (start-Kept n) (start-Counted places n num_iterations few)
