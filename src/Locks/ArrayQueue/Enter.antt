-- ===== src/Locks/ArrayQueue/Enter.antt =====
-- A thread of arrayqueue-lock.c takes its number.
use networking_howto.Prelude.{
  each, total_change, update, update_ne, update_self, ℕ, ◌+◌, ◌%◌, ◌≤◌, ◌<◌, ◌≡◌, ◌≢◌, ◌^◌, true,
  false, arith, sym, ap, ◌∙◌, subst, ℕ_discrete,
}
use networking_howto.Prelude.Bits.{mod_pow_mod}
use networking_howto.Locks.ArrayQueue.{Pc, outside, spinning, System, aql_acquire_first}
use networking_howto.Locks.ArrayQueue.Order.{active, passes, Placed, Queue}

module _ (k n : ℕ) (narrow : k < 16) (few : n ≤ 2 ^ k) where
  abbrev m : ℕ
  m = 2 ^ k

  -- A thread takes the next number.
  module _ (s : System) (t : ℕ) (l : t < n) (at : s.pc t ≡ outside)
      (q : Queue k n narrow few s) where
    abbrev number' : ℕ → ℕ
    number' = update q.number t q.issued

    abbrev place : Pc
    place = spinning (s.lock.head % s.lock.size) 0

    slot : s.lock.head % s.lock.size ≡ q.issued % m
    slot =
        ap (λ z. s.lock.head % z) q.sized
        ∙ ap (λ h. h % m) q.next
        ∙ mod_pow_mod 16 k q.issued (omega (arith, narrow))

    -- Another thread's number is below the new one.
    old_number : (v : ℕ) → v ≢ t → v < n → active (update s.pc t place v) ≡ 1 → number' v < q.issued
    old_number v ne l' a =
        let same = update_ne q.number t q.issued v ne in
        let below =
          ((q.placed v l').within (sym (ap active (update_ne s.pc t place v ne)) ∙ a)).1 in
        omega (arith, same, below)

    own_number : (u : ℕ) → u ≡ t → number' u ≡ q.issued
    own_number u e = ap number' e ∙ update_self q.number t q.issued

    new_distinct :
        (u v : ℕ)
        → u < n
        → v < n
        → active (update s.pc t place u) ≡ 1
        → active (update s.pc t place v) ≡ 1
        → number' u ≡ number' v
        → u ≡ v
    new_distinct u v l' l'' a a' e = elim (ℕ_discrete u t) [
      | yes is ↦ elim (ℕ_discrete v t) [
        | yes is' ↦ is ∙ sym is'
        | no ne' ↦
            let own = own_number u is in
            let old = old_number v ne' l'' a' in absurd (omega (arith, own, old, e))
      ]
      | no ne ↦ elim (ℕ_discrete v t) [
        | yes is' ↦
            let own = own_number v is' in
            let old = old_number u ne l' a in absurd (omega (arith, own, old, e))
        | no ne' ↦
            q.distinct u v l' l'' (sym (ap active (update_ne s.pc t place u ne)) ∙ a)
              (sym (ap active (update_ne s.pc t place v ne')) ∙ a')
              (sym (update_ne q.number t q.issued u ne) ∙ e ∙ update_ne q.number t q.issued v ne')
      ]
    ]

    new-Placed :
        (u : ℕ)
        → u < n
        → Placed k n narrow few q.served
            (q.issued + 1)
            (number' u)
            (update s.index t (s.lock.head % s.lock.size) u)
            (update s.pc t place u)
    new-Placed =
        each
          (λ u r.
            u < n
            → Placed k n narrow few q.served (q.issued + 1) (number' u)
                (update s.index t (s.lock.head % s.lock.size) u) r)
          s.pc t place
          (λ l'.
            let self = update_self q.number t q.issued in
            let memory = update_self s.index t (s.lock.head % s.lock.size) in
            let counted = q.counted in
            record {
              within = λ a. (
                omega (arith, self, counted),
                omega (arith, self),
                memory ∙ slot ∙ ap (λ j. j % m) (sym self),
              );
              own_index = sym memory;
              first = λ e. let clash : false ≡ true = e in cc;
            })
          (λ u ne l'.
            let old = q.placed u l' in
            let number = update_ne q.number t q.issued u ne in
            let memory = update_ne s.index t (s.lock.head % s.lock.size) u ne in
            subst
              (λ c.
                Placed k n narrow few q.served (q.issued + 1) c
                  (update s.index t (s.lock.head % s.lock.size) u) (s.pc u))
              (sym number)
              (subst (λ c. Placed k n narrow few q.served (q.issued + 1) (q.number u) c (s.pc u))
                (sym memory)
                (record {
                  within = λ a.
                      let (from, below, slot_of) = old.within a in
                      (from, omega (arith, below), slot_of);
                  own_index = old.own_index;
                  first = old.first;
                })))

    pub begin-Queue : Queue k n narrow few (aql_acquire_first s t)
    unfolding aql_acquire_first
    begin-Queue = record {
      served = q.served;
      issued = q.issued + 1;
      number = number';
      sized = q.sized;
      next = let next = q.next in omega (arith, next);
      counted =
          let counted = q.counted in
          let change =
            total_change n t (λ u. active (update s.pc t place u)) (λ u. active (s.pc u)) l
              (λ u ne. ap active (update_ne s.pc t place u ne)) in
          let before = ap active at in
          let later = ap active (update_self s.pc t place) in
          omega (arith, counted, change, before, later);
      placed = new-Placed;
      distinct = new_distinct;
      only_served = q.only_served;
      cleared =
          each (λ u r. u < n → passes r ≡ true → (j : ℕ) → j < m → s.lock.available j ≡ 0) s.pc t
            place (λ l' e. let clash : false ≡ true = e in cc) (λ u ne. q.cleared u);
    }
