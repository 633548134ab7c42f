-- ===== src/Locks/Insiders.antt =====
-- Which threads are inside after a step of one thread.
use networking_howto.Prelude.{
  update, update_ne, update_self, ℕ, ◌<◌, ◌≡◌, ◌≢◌, sym, subst, ℕ_discrete,
}
use networking_howto.Locks.Threads.{Section, Pc, outside, waiting, inside}

abbrev pub IsInside : {W : Type 0} → Pc W → Type 0
IsInside {W} p = (c : Section) × (p ≡ inside c)

pub not-outside : {W : Type 0} → ¬ IsInside {W = W} outside
not-outside {W} (c, e) = let impossible : ◌≡◌ {A = Pc W} outside (inside c) = e in cc

pub not-waiting : {W : Type 0} (w : W) → ¬ IsInside (waiting w)
not-waiting w (c, e) = let impossible : waiting w ≡ inside c = e in cc

module _ {W : Type 0} (pc : ℕ → Pc W) (t : ℕ) (p : Pc W) where
  -- If the thread moves to a place outside, who is inside then is another thread and was so before.
  pub insider_of_others :
      ¬ IsInside p → (u : ℕ) → IsInside (update pc t p u) → (u ≢ t) × IsInside (pc u)
  insider_of_others out u there = elim (ℕ_discrete u t) [
    | yes e ↦ absurd (
        out (subst IsInside (update_self pc t p) (subst (λ v. IsInside (update pc t p v)) e there)))
    | no ne ↦ (ne, subst IsInside (update_ne pc t p u ne) there)
  ]

  -- If the thread was inside, who is inside then was so before.
  pub insider_before : IsInside (pc t) → (u : ℕ) → IsInside (update pc t p u) → IsInside (pc u)
  insider_before was u there = elim (ℕ_discrete u t) [
    | yes e ↦ subst (λ v. IsInside (pc v)) (sym e) was
    | no ne ↦ subst IsInside (update_ne pc t p u ne) there
  ]

  -- If nobody was inside, who is inside then is this thread.
  pub insider_alone :
      (n : ℕ)
      → ((u : ℕ) → u < n → ¬ IsInside (pc u))
      → (u : ℕ) → u < n
      → IsInside (update pc t p u)
      → u ≡ t
  insider_alone n empty u l there = elim (ℕ_discrete u t) [
    | yes e ↦ e
    | no ne ↦ absurd (empty u l (subst IsInside (update_ne pc t p u ne) there))
  ]
