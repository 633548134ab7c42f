-- ===== src/Locks/Flag/Exclusion.antt =====
-- A lock that is one flag excludes: the flag is up when a thread is inside.
use networking_howto.Prelude.{
  update, ℕ, ◌<◌, ◌≡◌, Bool, true, false, Option, none, some, refl, sym, ◌∙◌, subst,
}
use networking_howto.Locks.Threads.{Section, loading, Pc, outside, waiting, inside, after_attempt}
use networking_howto.Locks.Insiders.{
  IsInside, not-outside, not-waiting, insider_of_others, insider_before, insider_alone,
}
use networking_howto.Locks.Excludes.{Excludes}
use networking_howto.Locks.Flag.{
  flag_lock, min_backoff, simple_tas_acquire, simple_tas_lock, tas_acquire, tas_lock, TtasWait,
  before_test, seen_free, ttas_acquire, ttas_lock,
}

-- A return from the loop finds the flag down and leaves it up; any other access leaves it.
abbrev TakesFlag : {W : Type 0} → Bool → Bool × Option W → Type 0
TakesFlag old (new, none) = (old ≡ false) × (new ≡ true)
TakesFlag old (new, some w) = new ≡ old

module _ {W : Type 0} (first : W) (attempt : W → Bool → Bool × Option W)
    (takes : (w : W) (lock_taken : Bool) → TakesFlag lock_taken (attempt w lock_taken))
    (n : ℕ) where
  record Flagged (lock_taken : Bool) (pc : ℕ → Pc W) : Type 0 where
    free : lock_taken ≡ false → (t : ℕ) → t < n → ¬ IsInside (pc t)
    alone : (t u : ℕ) → t < n → u < n → IsInside (pc t) → IsInside (pc u) → t ≡ u

  stay-Flagged :
      {lock_taken : Bool} {pc : ℕ → Pc W} (t : ℕ) (p : Pc W)
      → ¬ IsInside p
      → Flagged lock_taken pc
      → Flagged lock_taken (update pc t p)
  stay-Flagged {lock_taken} {pc} t p out f = record {
    free = λ e u l there. f.free e u l (insider_of_others pc t p out u there).1;
    alone = λ u v l l' there there'.
        f.alone u v l l' (insider_of_others pc t p out u there).1
          (insider_of_others pc t p out v there').1;
  }

  attempt-Flagged :
      {lock_taken : Bool} {pc : ℕ → Pc W} (t : ℕ) (new : Bool) (again : Option W)
      → TakesFlag lock_taken (new, again)
      → Flagged lock_taken pc
      → Flagged new (update pc t (after_attempt (flag_lock W first attempt) again))
  attempt-Flagged {lock_taken} {pc} t new none takes f = record {
    free = λ e u l there. let up = takes.1 in cc;
    alone = λ u v l l' there there'.
        insider_alone pc t (inside loading) n (f.free takes.0) u l there
        ∙ sym (insider_alone pc t (inside loading) n (f.free takes.0) v l' there');
  }
  attempt-Flagged {lock_taken} {pc} t new (some w') takes f =
      subst (λ b. Flagged b (update pc t (waiting w'))) (sym takes)
        (stay-Flagged t (waiting w') (not-waiting w') f)

  move-Flagged :
      {lock_taken : Bool} {pc : ℕ → Pc W} (t : ℕ) (c c' : Section)
      → t < n
      → Flagged lock_taken pc
      → pc t ≡ inside c
      → Flagged lock_taken (update pc t (inside c'))
  move-Flagged {lock_taken} {pc} t c c' l f at = record {
    free = λ e u l' there. f.free e t l (c, at);
    alone = λ u v l' l'' there there'.
        f.alone u v l' l'' (insider_before pc t (inside c') (c, at) u there)
          (insider_before pc t (inside c') (c, at) v there');
  }

  release-Flagged :
      {lock_taken : Bool} {pc : ℕ → Pc W} (t : ℕ) (c : Section)
      → t < n
      → Flagged lock_taken pc
      → pc t ≡ inside c
      → Flagged false (update pc t outside)
  release-Flagged {lock_taken} {pc} t c l f at =
      let empty : (u : ℕ) → u < n → ¬ IsInside (update pc t outside u) = λ u l' there.
        let (ne, was) = insider_of_others pc t outside not-outside u there in
        ne (f.alone u t l' l was (c, at)) in
      record { free = λ e. empty; alone = λ u v l' l'' there there'. absurd (empty u l' there) }

  pub flag_lock-Excludes : Excludes (flag_lock W first attempt) n
  flag_lock-Excludes = record {
    Holds = Flagged;
    starts = record {
      free = λ e t l there. not-outside there;
      alone = λ t u l l' there there'. absurd (not-outside there);
    };
    begins = λ s pc t l f at. stay-Flagged t (waiting first) (not-waiting first) f;
    attempts = λ s pc t w l f at. attempt-Flagged t (attempt w s).0 (attempt w s).1 (takes w s) f;
    moves = λ s pc t c c' l f at. move-Flagged t c c' l f at;
    releases = λ s pc t c l f at. release-Flagged t c l f at;
    exclusive = λ s pc t u c c' l l' f at at'. f.alone t u l l' (c, at) (c', at');
  }

simple_tas-takes :
    (w : Unit {0}) (lock_taken : Bool) → TakesFlag lock_taken (simple_tas_acquire w lock_taken)
unfolding simple_tas_acquire
simple_tas-takes w true = refl
simple_tas-takes w false = (refl, refl)

tas-takes : (w : ℕ) (lock_taken : Bool) → TakesFlag lock_taken (tas_acquire w lock_taken)
unfolding tas_acquire
tas-takes w true = refl
tas-takes w false = (refl, refl)

ttas-takes : (w : TtasWait) (lock_taken : Bool) → TakesFlag lock_taken (ttas_acquire w lock_taken)
unfolding ttas_acquire
ttas-takes (before_test backoff) lock_taken = refl
ttas-takes (seen_free backoff) true = refl
ttas-takes (seen_free backoff) false = (refl, refl)

pub simple_tas_lock-Excludes : (n : ℕ) → Excludes simple_tas_lock n
simple_tas_lock-Excludes = flag_lock-Excludes tt simple_tas_acquire simple_tas-takes

pub tas_lock-Excludes : (n : ℕ) → Excludes tas_lock n
tas_lock-Excludes = flag_lock-Excludes min_backoff tas_acquire tas-takes

pub ttas_lock-Excludes : (n : ℕ) → Excludes ttas_lock n
ttas_lock-Excludes = flag_lock-Excludes (before_test min_backoff) ttas_acquire ttas-takes
