-- ===== src/Futex/Kept.antt =====
-- What the steps of futex.c keep: the range of the mutex, its ownership, and its sleepers attended.
use networking_howto.Prelude.{
  each, update, ℕ, ◌≤◌, ◌<◌, ◌≡◌, Bool, true, false, none, some, List, [], ◌∷◌, refl, sym, ◌∙◌, ap,
}
use networking_howto.Futex.{
  Pc, outside, exchanging, to_wait, asleep, inside, to_store, to_wake, checking_free, checking_wq,
  System, go, is_asleep, Pick, Event, turn, signal,
}
use networking_howto.Futex.Ownership.{owns, Owned, stay-Owned}
use networking_howto.Futex.Sleepers.{attends, Attended, here-Attended, keep-Attended}

-- FUTEX_WAKE wakes one of the `n` threads that is asleep, if there is one.
pub record Picks (n : ℕ) (pick : Pick) : Type 0 where
  pub someone :
      (sleeping : ℕ → Bool) (u : ℕ) → pick sleeping ≡ some u → (u < n) × (sleeping u ≡ true)
  pub nobody : (sleeping : ℕ → Bool) → pick sleeping ≡ none → (u : ℕ) → u < n → sleeping u ≡ false

-- Events of the first `n` threads.
abbrev pub Of : ℕ → Event → Type 0
Of n (turn t pick) = (t < n) × Picks n pick
Of n (signal t) = t < n

abbrev pub AllOf : ℕ → List Event → Type 0
AllOf n [] = Unit
AllOf n (e ∷ es) = Of n e × AllOf n es

-- Behind the first comparison of the test, the mutex is M_LOCKD_WQ.
abbrev pub is_late : Pc → Bool
is_late (inside checking_free) = true
is_late (inside checking_wq) = true
is_late p = false

module _ (n : ℕ) where
  abbrev pub Late : (mutex : ℕ) → (ℕ → Pc) → Type 0
  Late mutex pc = (u : ℕ) → u < n → is_late (pc u) ≡ true → mutex ≡ 2

  -- A step that leaves the mutex as it is, or M_LOCKD_WQ, of a thread that is not behind the first
  -- comparison afterwards.
  pub keep-Late :
      {mutex mutex' : ℕ} (pc : ℕ → Pc) (t : ℕ) (p' : Pc)
      → (mutex ≡ 2 → mutex' ≡ 2)
      → is_late p' ≡ false
      → Late mutex pc
      → Late mutex' (update pc t p')
  keep-Late {mutex} {mutex'} pc t p' full early late =
      each (λ u p. u < n → is_late p ≡ true → mutex' ≡ 2) pc t p'
        (λ l e. let clash : false ≡ true = sym early ∙ e in absurd (cc))
        (λ u ne l e. full (late u l e))

  -- A step by the owner of the mutex, which nobody else is.
  pub owner-Late :
      {mutex mutex' : ℕ} {pc : ℕ → Pc} (t : ℕ) (p' : Pc)
      → t < n
      → owns (pc t) ≡ true
      → is_late p' ≡ false
      → Owned n mutex pc
      → Late mutex' (update pc t p')
  owner-Late {mutex} {mutex'} {pc} t p' l mine early owned =
      each (λ u p. u < n → is_late p ≡ true → mutex' ≡ 2) pc t p'
        (λ l' e. let clash : false ≡ true = sym early ∙ e in absurd (cc))
        (λ u ne l' e. absurd (ne (owned.alone u t l' l (late_owns (pc u) e) mine)))
    where
      late_owns : (p : Pc) → is_late p ≡ true → owns p ≡ true
      late_owns (inside c) e = refl
      late_owns outside e = e
      late_owns exchanging e = e
      late_owns to_wait e = e
      late_owns asleep e = e
      late_owns to_store e = refl
      late_owns to_wake e = e

  pub record Kept (s : System) : Type 0 where
    pub range : s.mutex ≤ 2
    pub owned : Owned n s.mutex s.pc
    pub attended : Attended n s.mutex s.pc
    pub late : Late s.mutex s.pc
    pub valid : s.invalid ≡ false

  -- A move within the same state of the mutex.
  pub move-Kept :
      (s : System) (t : ℕ) (p p' : Pc)
      → s.pc t ≡ p
      → owns p' ≡ owns p
      → attends p ≡ false
      → is_asleep p' ≡ false
      → (is_late p' ≡ true → s.mutex ≡ 2)
      → Kept s
      → Kept (go s t p')
  move-Kept s t p p' at same not_attending awake full kept = record {
    range = kept.range;
    owned = stay-Owned n t p' (same ∙ ap owns (sym at)) (λ e. e) (λ e. e) kept.owned;
    attended = keep-Attended n t p' (λ e. e) (ap attends at ∙ not_attending) awake kept.attended;
    late =
        each (λ u q. u < n → is_late q ≡ true → s.mutex ≡ 2) s.pc t p' (λ l. full)
          (λ u ne. kept.late u);
    valid = kept.valid;
  }

  pub wake-Kept : (s : System) (u : ℕ) → u < n → s.pc u ≡ asleep → Kept s → Kept (go s u exchanging)
  wake-Kept s u l at kept = record {
    range = kept.range;
    owned = stay-Owned n u exchanging (ap owns (sym at)) (λ e. e) (λ e. e) kept.owned;
    attended = here-Attended n s.pc u exchanging l refl;
    late = keep-Late s.pc u exchanging (λ e. e) refl kept.late;
    valid = kept.valid;
  }
