-- ===== src/Locks/ArrayQueue/Leave.antt =====
-- A thread of arrayqueue-lock.c passes the lock on.
use networking_howto.Prelude.{
  each, total_change, update, update_ne, update_self, ℕ, ◌+◌, ◌%◌, ◌≤◌, ◌<◌, ◌≡◌, ◌≢◌, ◌^◌, true,
  false, arith, sym, ap, ◌∙◌, subst, ℕ_discrete,
}
use native.Mathlib.Nat.{mod-add-mod}
use networking_howto.Locks.ArrayQueue.{outside, to_pass, System, aql_release_second}
use networking_howto.Locks.ArrayQueue.Order.{
  active, owns, owner-active, passes, passes-owns, Local, Placed, Queue, owner_alone,
}

module _ (k n : ℕ) (narrow : k < 16) (few : n ≤ 2 ^ k) where
  abbrev m : ℕ
  m = 2 ^ k

  -- The thread served passes the lock on to the next number.
  module _ (s : System) (t index : ℕ) (l : t < n) (at : s.pc t ≡ to_pass index)
      (q : Queue k n narrow few s) where
    first : q.number t ≡ q.served
    first = (q.placed t l).first (ap owns at)

    passed_slot : (index + 1) % s.lock.size ≡ (q.served + 1) % m
    passed_slot =
        let memory = ((q.placed t l).within (ap active at)).2 in
        let own : index ≡ q.served % m =
          subst (Local (s.index t)) at (q.placed t l).own_index ∙ memory ∙ ap (λ j. j % m) first in
        ap (λ z. (index + 1) % z) q.sized ∙ ap (λ j. (j + 1) % m) own ∙ mod-add-mod q.served m 1

    -- A thread that has left is not active.
    still_active : (u : ℕ) → active (update s.pc t outside u) ≡ 1 → (u ≢ t) × (active (s.pc u) ≡ 1)
    still_active u a = elim (ℕ_discrete u t) [
      | yes is ↦
          let gone = ap (λ v. active (update s.pc t outside v)) is in
          let here = ap active (update_self s.pc t outside) in absurd (omega (arith, gone, here, a))
      | no ne ↦ (ne, sym (ap active (update_ne s.pc t outside u ne)) ∙ a)
    ]

    not_first : (u : ℕ) → u < n → u ≢ t → active (s.pc u) ≡ 1 → q.number u ≢ q.served
    not_first u l' ne a e = ne (q.distinct u t l' l a (ap active at) (e ∙ sym first))

    pub pass-Queue : Queue k n narrow few (aql_release_second s t index)
    unfolding aql_release_second
    pass-Queue = record {
      served = q.served + 1;
      issued = q.issued;
      number = q.number;
      sized = q.sized;
      next = q.next;
      counted =
          let counted = q.counted in
          let change =
            total_change n t (λ u. active (update s.pc t outside u)) (λ u. active (s.pc u)) l
              (λ u ne. ap active (update_ne s.pc t outside u ne)) in
          let before = ap active at in
          let later = ap active (update_self s.pc t outside) in
          omega (arith, counted, change, before, later);
      placed =
          each
            (λ u r.
              u < n → Placed k n narrow few (q.served + 1) q.issued (q.number u) (s.index u) r)
            s.pc t outside
            (λ l'. record {
              within = λ a. absurd (omega (arith, a));
              own_index = tt;
              first = λ e. let clash : false ≡ true = e in cc;
            })
            (λ u ne l'.
              let old = q.placed u l' in
              record {
                within = λ a.
                    let (from, below, slot_of) = old.within a in
                    let later = not_first u l' ne a in (omega (arith, from, later), below, slot_of);
                own_index = old.own_index;
                first = λ e. absurd (not_first u l' ne (owner-active (s.pc u) e) (old.first e));
              });
      distinct =
          λ u v l' l'' a a' e. q.distinct u v l' l'' (still_active u a).1 (still_active v a').1 e;
      only_served = λ j l' up. elim (ℕ_discrete j ((index + 1) % s.lock.size)) [
        | yes here ↦ here ∙ passed_slot
        | no ne ↦ absurd (
            up (
              update_ne s.lock.available ((index + 1) % s.lock.size) 1 j ne
              ∙ q.cleared t l (ap passes at) j l'))
      ];
      cleared =
          each
            (λ u r.
              u < n
              → passes r ≡ true
              → (j : ℕ) → j < m
              → update s.lock.available ((index + 1) % s.lock.size) 1 j ≡ 0)
            s.pc t outside (λ l' e. let clash : false ≡ true = e in cc)
            (λ u ne l' e.
              absurd (
                ne
                  (owner_alone k n narrow few s u t q l' l (passes-owns (s.pc u) e) (ap owns at))));
    }
