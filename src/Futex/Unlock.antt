-- ===== src/Futex/Unlock.antt =====
-- The steps of `unlock` of futex.c.
use networking_howto.Prelude.{
  update, update_self, update_ne, each, ℕ, ◌<◌, ◌≡◌, ◌≢◌, true, false, ◌==◌, ==_iff, Bool-cases,
  Option-cases, inl, inr, arith, refl, sym, ◌∙◌, ap,
}
use networking_howto.Futex.{
  unlocking, outside, exchanging, asleep, inside, to_store, to_wake, System, go, is_asleep, Pick,
  unlock_first, futex_wake, next_round,
}
use networking_howto.Futex.Ownership.{owns, stay-Owned, release-Owned}
use networking_howto.Futex.Sleepers.{
  attends, Attended, attendant, unneeded, asleep_if, here-Attended, keep-Attended,
}
use networking_howto.Futex.Kept.{keep-Late, owner-Late, Picks, Kept, wake-Kept}

module _ (n : ℕ) where
  not_free : (s : System) (t : ℕ) → t < n → owns (s.pc t) ≡ true → Kept n s → s.mutex ≢ 0
  not_free s t l mine kept e = kept.owned.free e t l mine

  pub unlock_first-Kept :
      (s : System) (t : ℕ)
      → t < n
      → s.pc t ≡ inside unlocking
      → Kept n s
      → Kept n (unlock_first s t)
  unfolding unlock_first
  unlock_first-Kept s t l at kept =
      let taken = not_free s t l (ap owns at) kept in
      let range = kept.range in
      elim (Bool-cases (s.mutex == 1)) [
        | inl single ↦
            let one_mutex = (==_iff s.mutex 1).0 single in
            rw single (record {
              range = omega (arith, one_mutex);
              owned =
                  release-Owned n t outside l refl (ap owns at) (omega (arith, one_mutex))
                    kept.owned;
              attended =
                  keep-Attended n t outside (λ e. absurd (omega (arith, e, one_mutex)))
                    (ap attends at) refl kept.attended;
              late = owner-Late n t outside l (ap owns at) refl kept.owned;
              valid = kept.valid;
            })
        | inr full ↦
            let ne : s.mutex ≢ 1 = λ e. let single = (==_iff s.mutex 1).1 e in cc in
            rw full (record {
              range = omega (arith, range, taken);
              owned =
                  stay-Owned n t to_store (ap owns (sym at))
                    (λ e. absurd (omega (arith, e, range, taken, ne))) (λ e. taken) kept.owned;
              attended = here-Attended n s.pc t to_store l refl;
              late = owner-Late n t to_store l (ap owns at) refl kept.owned;
              valid = kept.valid;
            })
      ]

  pub store-Kept :
      (s : System) (t : ℕ)
      → t < n
      → s.pc t ≡ to_store
      → Kept n s
      → Kept n (go (record s { mutex = 0 }) t to_wake)
  store-Kept s t l at kept = record {
    range = omega arith;
    owned = release-Owned n t to_wake l refl (ap owns at) refl kept.owned;
    attended = here-Attended n s.pc t to_wake l refl;
    late = owner-Late n t to_wake l (ap owns at) refl kept.owned;
    valid = kept.valid;
  }

  -- The end of a round of a thread that has woken one other, or found none asleep.
  leave-Kept :
      (s : System) (t : ℕ)
      → s.pc t ≡ to_wake
      → Attended n s.mutex (update s.pc t outside)
      → Kept n s
      → Kept n (next_round s t)
  leave-Kept s t at attended kept = record {
    range = kept.range;
    owned = stay-Owned n t outside (ap owns (sym at)) (λ e. e) (λ e. e) kept.owned;
    attended = attended;
    late = keep-Late n s.pc t outside (λ e. e) refl kept.late;
    valid = kept.valid;
  }

  pub futex_wake-Kept :
      (pick : Pick) (s : System) (t : ℕ)
      → Picks n pick
      → t < n
      → s.pc t ≡ to_wake
      → Kept n s
      → Kept n (futex_wake pick s t)
  unfolding futex_wake
  futex_wake-Kept pick s t picks l at kept = elim (Option-cases (pick (λ u. is_asleep (s.pc u)))) [
    | inl e ↦ rw e (
        leave-Kept s t at
          (unneeded (
            each (λ u p. u < n → is_asleep p ≡ false) s.pc t outside (λ l'. refl)
              (λ u ne. picks.nobody (λ v. is_asleep (s.pc v)) e u)))
          kept)
    | inr (u, e) ↦
        let (lu, sleeping) = picks.someone (λ v. is_asleep (s.pc v)) u e in
        let at_u = asleep_if (s.pc u) sleeping in
        let apart : t ≢ u =
          λ same. let clash : to_wake ≡ asleep = sym at ∙ ap s.pc same ∙ at_u in cc in
        let still : (go s u exchanging).pc t ≡ to_wake = update_ne s.pc u exchanging t apart ∙ at in
        rw e (
          leave-Kept (go s u exchanging) t still
            (attendant u lu (
              ap attends (
                update_ne (update s.pc u exchanging) t outside u (λ same. apart (sym same))
                ∙ update_self s.pc u exchanging)))
            (wake-Kept n s u lu at_u kept))
  ]
