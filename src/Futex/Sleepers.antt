-- ===== src/Futex/Sleepers.antt =====
-- While a thread is asleep, the mutex of futex.c says so or another thread is on its way to wake it.
use networking_howto.Prelude.{
  update, update_self, update_ne, each, ℕ, ◌<◌, ◌≡◌, ◌≢◌, Bool, true, false, refl, sym, ◌∙◌, ap,
}
use networking_howto.Futex.{
  Pc, outside, exchanging, to_wait, asleep, inside, to_store, to_wake, m_lockd_wq, is_asleep,
}

-- About to set the state to M_LOCKD_WQ, or to call FUTEX_WAKE.
abbrev pub attends : Pc → Bool
attends exchanging = true
attends to_store = true
attends to_wake = true
attends (inside c) = false
attends outside = false
attends to_wait = false
attends asleep = false

pub asleep_if : (p : Pc) → is_asleep p ≡ true → p ≡ asleep
asleep_if asleep e = refl
asleep_if outside e = let clash : false ≡ true = e in cc
asleep_if exchanging e = let clash : false ≡ true = e in cc
asleep_if to_wait e = let clash : false ≡ true = e in cc
asleep_if (inside c) e = let clash : false ≡ true = e in cc
asleep_if to_store e = let clash : false ≡ true = e in cc
asleep_if to_wake e = let clash : false ≡ true = e in cc

module _ (n : ℕ) where
  abbrev pub NoneAsleep : (ℕ → Pc) → Type 0
  NoneAsleep pc = (u : ℕ) → u < n → is_asleep (pc u) ≡ false

  pub data Attended (mutex : ℕ) (pc : ℕ → Pc) : Type 0 where
    recorded : mutex ≡ m_lockd_wq → Attended mutex pc
    attendant : (u : ℕ) → u < n → attends (pc u) ≡ true → Attended mutex pc
    unneeded : NoneAsleep pc → Attended mutex pc

  pub here-Attended :
      {mutex : ℕ} (pc : ℕ → Pc) (t : ℕ) (p' : Pc)
      → t < n
      → attends p' ≡ true
      → Attended mutex (update pc t p')
  here-Attended {mutex} pc t p' l e = attendant t l (ap attends (update_self pc t p') ∙ e)

  -- A step of a thread that did not attend and does not fall asleep.
  pub keep-Attended :
      {mutex mutex' : ℕ} {pc : ℕ → Pc} (t : ℕ) (p' : Pc)
      → (mutex ≡ m_lockd_wq → mutex' ≡ m_lockd_wq)
      → attends (pc t) ≡ false
      → is_asleep p' ≡ false
      → Attended mutex pc
      → Attended mutex' (update pc t p')
  keep-Attended {mutex} {mutex'} {pc} t p' full not_attending awake (recorded e) = recorded (full e)
  keep-Attended {mutex} {mutex'} {pc} t p' full not_attending awake (attendant u l e) =
      let ne : u ≢ t = λ same.
        let clash : true ≡ false = sym e ∙ ap (λ v. attends (pc v)) same ∙ not_attending in cc in
      attendant u l (ap attends (update_ne pc t p' u ne) ∙ e)
  keep-Attended {mutex} {mutex'} {pc} t p' full not_attending awake (unneeded none_asleep) =
      unneeded
        (each (λ u p. u < n → is_asleep p ≡ false) pc t p' (λ l. awake) (λ u ne. none_asleep u))
