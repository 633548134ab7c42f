-- ===== src/Locks/ArrayQueue/Hold.antt =====
-- A thread of arrayqueue-lock.c waits, enters, and takes its own flag down.
use networking_howto.Prelude.{
  total-bound, update, update_ne, update_self, ℕ, ◌%◌, ◌≤◌, ◌<◌, ◌≡◌, ◌≢◌, ◌^◌, true, false, ◌==◌,
  ==_iff, Bool-cases, inl, inr, arith, refl, sym, ap, ◌∙◌, subst, ℕ_discrete, dec_lt,
}
use native.Mathlib.Nat.{mod-lt}
use networking_howto.Prelude.Bits.{pow-pos, slot_ne}
use networking_howto.Locks.Threads.{Section, loading}
use networking_howto.Locks.ArrayQueue.{
  spinning, inside, to_pass, System, go, next_iteration, aql_acquire_test, aql_release_first,
}
use networking_howto.Locks.ArrayQueue.Order.{active, active-bound, owns, Local, Queue, keep-Queue}

module _ (k n : ℕ) (narrow : k < 16) (few : n ≤ 2 ^ k) where
  abbrev pub m : ℕ
  m = 2 ^ k

  -- The number of a thread whose flag is up is served.
  served_now :
      (s : System) (t index iteration : ℕ) (q : Queue k n narrow few s)
      → t < n
      → s.pc t ≡ spinning index iteration
      → s.lock.available index ≢ 0
      → q.number t ≡ q.served
  served_now s t index iteration q l at up =
      let (from, below, memory) = (q.placed t l).within (ap active at) in
      let own : index ≡ q.number t % m =
        subst (Local (s.index t)) at (q.placed t l).own_index ∙ memory in
      let slot : index ≡ q.served % m =
        q.only_served index (subst (λ j. j < m) (sym own) (mod-lt (q.number t) (pow-pos k))) up in
      let counted = q.counted in
      let bound = total-bound n (λ u. active (s.pc u)) (λ u. active-bound (s.pc u)) in
      elim (dec_lt q.served (q.number t)) [
        | yes later ↦ absurd (
            slot_ne m q.served (q.number t) (pow-pos k) later
              (omega (arith, below, counted, bound, few)) (sym slot ∙ own))
        | no not_later ↦ omega (arith, from, not_later)
      ]

  pub test-Queue :
      (s : System) (t index iteration : ℕ)
      → t < n
      → s.pc t ≡ spinning index iteration
      → Queue k n narrow few s
      → Queue k n narrow few (aql_acquire_test s t index iteration)
  unfolding aql_acquire_test
  test-Queue s t index iteration l at q = elim (Bool-cases (s.lock.available index == 0)) [
    | inl down ↦ rw down (
        keep-Queue k n narrow few s t (spinning index (next_iteration iteration)) s.lock.available q
          (ap active (sym at)) (λ l'. subst (Local (s.index t)) at (q.placed t l).own_index)
          (λ l' e. let clash : false ≡ true = e in cc) (λ j l' e. e)
          (λ e. let clash : false ≡ true = e in cc))
    | inr up ↦
        let up_now : s.lock.available index ≢ 0 =
          λ e. let down = (==_iff (s.lock.available index) 0).1 e in cc in
        rw up (
          keep-Queue k n narrow few s t (inside loading) s.lock.available q (ap active (sym at))
            (λ l'. tt) (λ l' e. served_now s t index iteration q l at up_now) (λ j l' e. e)
            (λ e. let clash : false ≡ true = e in cc))
  ]

  pub move-Queue :
      (s : System) (t : ℕ) (c c' : Section)
      → t < n
      → s.pc t ≡ inside c
      → Queue k n narrow few s
      → Queue k n narrow few (go s t (inside c'))
  move-Queue s t c c' l at q =
      keep-Queue k n narrow few s t (inside c') s.lock.available q (ap active (sym at)) (λ l'. tt)
        (λ l' e. (q.placed t l).first (ap owns at)) (λ j l' e. e)
        (λ e. let clash : false ≡ true = e in cc)

  -- The first store of the release leaves no flag up.
  pub release-Queue :
      (s : System) (t : ℕ) (c : Section)
      → t < n
      → s.pc t ≡ inside c
      → Queue k n narrow few s
      → Queue k n narrow few (aql_release_first s t)
  unfolding aql_release_first
  release-Queue s t c l at q =
      let placed = q.placed t l in
      let number = placed.first (ap owns at) in
      let slot : s.index t ≡ q.served % m =
        (placed.within (ap active at)).2 ∙ ap (λ j. j % m) number in
      let off = update s.lock.available (s.index t) 0 in
      let none_up : (j : ℕ) → j < m → off j ≡ 0 = λ j l'. elim (ℕ_discrete j (s.index t)) [
        | yes here ↦ ap off here ∙ update_self s.lock.available (s.index t) 0
        | no ne ↦
            update_ne s.lock.available (s.index t) 0 j ne
            ∙ elim (Bool-cases (s.lock.available j == 0)) [
              | inl down ↦ (==_iff (s.lock.available j) 0).0 down
              | inr up ↦ absurd (
                  ne (
                    q.only_served j l' (λ e. let down = (==_iff (s.lock.available j) 0).1 e in cc)
                    ∙ sym slot))
            ]
      ] in
      keep-Queue k n narrow few s t (to_pass (s.index t)) off q (ap active (sym at)) (λ l'. refl)
        (λ l' e. number) (λ j l' e. none_up j l') (λ e. none_up)
