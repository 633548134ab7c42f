-- ===== src/Futex/Lock.antt =====
-- The steps of `lock` of futex.c.
use networking_howto.Prelude.{
  ℕ, ◌<◌, ◌≡◌, ◌≢◌, ◌==◌, ==_iff, Bool-cases, inl, inr, arith, refl, sym, ap,
}
use networking_howto.Futex.{
  checking, outside, exchanging, to_wait, asleep, inside, System, lock_first, lock_exchange,
  futex_wait,
}
use networking_howto.Futex.Ownership.{owns, stay-Owned, acquire-Owned}
use networking_howto.Futex.Sleepers.{attends, recorded, keep-Attended}
use networking_howto.Futex.Kept.{keep-Late, Kept, move-Kept}

module _ (n : ℕ) where
  pub lock_first-Kept :
      (s : System) (t : ℕ) → t < n → s.pc t ≡ outside → Kept n s → Kept n (lock_first s t)
  unfolding lock_first
  lock_first-Kept s t l at kept = elim (Bool-cases (s.mutex == 0)) [
    | inl free ↦
        let zero_mutex = (==_iff s.mutex 0).0 free in
        rw free (record {
          range = omega arith;
          owned =
              acquire-Owned n t (inside checking) l refl zero_mutex (λ e. omega (arith, e))
                kept.owned;
          attended =
              keep-Attended n t (inside checking) (λ e. absurd (omega (arith, e, zero_mutex)))
                (ap attends at) refl kept.attended;
          late =
              keep-Late n s.pc t (inside checking) (λ e. absurd (omega (arith, e, zero_mutex))) refl
                kept.late;
          valid = kept.valid;
        })
    | inr taken ↦ rw taken (elim (Bool-cases (s.mutex == 2)) [
      | inl full ↦
          rw full (move-Kept n s t outside to_wait at refl refl refl (λ e. absurd (cc)) kept)
      | inr single ↦
          rw single (move-Kept n s t outside exchanging at refl refl refl (λ e. absurd (cc)) kept)
    ])
  ]

  pub lock_exchange-Kept :
      (s : System) (t : ℕ) → t < n → s.pc t ≡ exchanging → Kept n s → Kept n (lock_exchange s t)
  unfolding lock_exchange
  lock_exchange-Kept s t l at kept = elim (Bool-cases (s.mutex == 0)) [
    | inl free ↦ rw free (record {
      range = omega arith;
      owned =
          acquire-Owned n t (inside checking) l refl ((==_iff s.mutex 0).0 free)
            (λ e. omega (arith, e)) kept.owned;
      attended = recorded refl;
      late = keep-Late n s.pc t (inside checking) (λ e. refl) refl kept.late;
      valid = kept.valid;
    })
    | inr taken ↦
        let ne : s.mutex ≢ 0 = λ e. let free = (==_iff s.mutex 0).1 e in cc in
        rw taken (record {
          range = omega arith;
          owned =
              stay-Owned n t to_wait (ap owns (sym at)) (λ e. absurd (omega (arith, e))) (λ e. ne)
                kept.owned;
          attended = recorded refl;
          late = keep-Late n s.pc t to_wait (λ e. refl) refl kept.late;
          valid = kept.valid;
        })
  ]

  pub futex_wait-Kept :
      (s : System) (t : ℕ) → t < n → s.pc t ≡ to_wait → Kept n s → Kept n (futex_wait s t)
  unfolding futex_wait
  futex_wait-Kept s t l at kept = elim (Bool-cases (s.mutex == 2)) [
    | inl full ↦ rw full (record {
      range = kept.range;
      owned = stay-Owned n t asleep (ap owns (sym at)) (λ e. e) (λ e. e) kept.owned;
      attended = recorded ((==_iff s.mutex 2).0 full);
      late = keep-Late n s.pc t asleep (λ e. e) refl kept.late;
      valid = kept.valid;
    })
    | inr changed ↦
        rw changed (move-Kept n s t to_wait exchanging at refl refl refl (λ e. absurd (cc)) kept)
  ]
