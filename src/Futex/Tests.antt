-- ===== src/Futex/Tests.antt =====
-- Two threads of futex.c, of which one falls asleep and is woken.
use networking_howto.Prelude.{
  ℕ, zero, suc, ◌*◌, ◌<◌, ◌≡◌, ◌≢◌, inl, Bool, true, false, Option, none, some, List, [], ◌∷◌,
  if◌then◌else◌, arith, refl, subst, u32,
}
use mathlib.Core.Option.{some-injective}
use networking_howto.Locks.Counter.{AllBelow}
use networking_howto.Futex.{
  outside, asleep, inside, checking, Pick, Event, turn, run, start, step, thread_at, lock_first,
  lock_exchange, futex_wait, unlock_first, futex_wake,
}
use networking_howto.Futex.Kept.{Picks, AllOf}
use networking_howto.Futex.Safety.{
  futex_never_invalid, futex_excludes, futex_wakes_all, futex_counts,
}

abbrev first_asleep : Pick
first_asleep sleeping = if sleeping 0 then some 0 else if sleeping 1 then some 1 else none

first_of_two-Picks : Picks 2 first_asleep
first_of_two-Picks = record {
  someone = λ sleeping u. picked sleeping u (sleeping 0) (sleeping 1) refl refl;
  nobody = λ sleeping. unpicked sleeping (sleeping 0) (sleeping 1) refl refl;
}
  where
    picked :
        (sleeping : ℕ → Bool) (u : ℕ) (a b : Bool)
        → sleeping 0 ≡ a
        → sleeping 1 ≡ b
        → (if a then some 0 else if b then some 1 else none) ≡ some u
        → (u < 2) × (sleeping u ≡ true)
    picked sleeping u true b a0 b1 e =
        let same : 0 ≡ u = some-injective _ _ e in
        (omega (arith, same), subst (λ v. sleeping v ≡ true) same a0)
    picked sleeping u false true a0 b1 e =
        let same : 1 ≡ u = some-injective _ _ e in
        (omega (arith, same), subst (λ v. sleeping v ≡ true) same b1)
    picked sleeping u false false a0 b1 e = let clash : ◌≡◌ {A = Option ℕ} none (some u) = e in cc

    unpicked :
        (sleeping : ℕ → Bool) (a b : Bool)
        → sleeping 0 ≡ a
        → sleeping 1 ≡ b
        → ◌≡◌ {A = Option ℕ} (if a then some 0 else if b then some 1 else none) none
        → (u : ℕ) → u < 2
        → sleeping u ≡ false
    unpicked sleeping true b a0 b1 e u l = let clash : ◌≡◌ {A = Option ℕ} (some 0) none = e in cc
    unpicked sleeping false true a0 b1 e u l =
        let clash : ◌≡◌ {A = Option ℕ} (some 1) none = e in cc
    unpicked sleeping false false a0 b1 e zero l = a0
    unpicked sleeping false false a0 b1 e (suc zero) l = b1
    unpicked sleeping false false a0 b1 e (suc (suc u)) l = absurd (omega (arith, l))

-- Turns of the two threads.
abbrev turns : List ℕ → List Event
turns [] = []
turns (t ∷ ts) = turn t first_asleep ∷ turns ts

turns-AllOf : (ts : List ℕ) → AllBelow 2 ts → AllOf 2 (turns ts)
turns-AllOf [] below = tt
turns-AllOf (t ∷ ts) below = ((below.0, first_of_two-Picks), turns-AllOf ts below.1)

l0 : 0 < 2
l0 = omega arith

l1 : 1 < 2
l1 = omega arith

-- Thread 0 has the mutex, and thread 1 sleeps.
abbrev contended : List ℕ
contended = 0 ∷ 1 ∷ 1 ∷ 1 ∷ []

contended_all : AllOf 2 (turns contended)
contended_all = turns-AllOf contended (omega arith)

one_sleeps :
    let s = run 1 (turns contended) start in
    (s.pc 0 ≡ inside checking) × (s.pc 1 ≡ asleep) × (s.mutex ≡ 2)
unfolding run step thread_at lock_first lock_exchange futex_wait
one_sleeps = (refl, refl, refl)

futex_excludes_example : (run 1 (turns contended) start).pc 1 ≢ inside checking
futex_excludes_example =
    futex_excludes 2 1 (turns contended) contended_all 0 1 checking checking l0 l1
      (λ e. omega (arith, e)) one_sleeps.0

-- Thread 0 leaves and wakes thread 1, and both return.
abbrev both_return : List ℕ
both_return = 0 ∷ 1 ∷ 1 ∷ 1 ∷ 0 ∷ 0 ∷ 0 ∷ 0 ∷ 0 ∷ 0 ∷ 0 ∷ 0 ∷ 1 ∷ 1 ∷ 1 ∷ 1 ∷ 1 ∷ 1 ∷ 1 ∷ 1 ∷ 1 ∷ []

both_return_all : AllOf 2 (turns both_return)
both_return_all = turns-AllOf both_return (omega arith)

both_returned :
    (u : ℕ) → u < 2 → let s = run 1 (turns both_return) start in (s.pc u ≡ outside) × (s.i u ≡ 1)
unfolding run step thread_at lock_first lock_exchange futex_wait unlock_first futex_wake
both_returned zero l = (refl, refl)
both_returned (suc zero) l = (refl, refl)
both_returned (suc (suc u)) l = absurd (omega (arith, l))

futex_wakes_all_example : (run 1 (turns both_return) start).pc 1 ≡ outside
futex_wakes_all_example =
    futex_wakes_all 2 1 (turns both_return) both_return_all (λ u l. inl (both_returned u l).0) 1 l1

futex_counts_example : (run 1 (turns both_return) start).var ≡ u32 (2 * 1)
futex_counts_example =
    futex_counts 2 1 (turns both_return) both_return_all (omega arith) both_returned

futex_never_invalid_example : (run 1 (turns both_return) start).invalid ≡ false
futex_never_invalid_example = futex_never_invalid 2 1 (turns both_return) both_return_all
