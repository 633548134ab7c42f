-- ===== src/Locks/Ticket/Exclusion.antt =====
-- The lock of ticket-lock.c excludes, also when its 32-bit counters wrap, as long as there are fewer
-- threads than tickets.
use networking_howto.Prelude.{
  each, total-all, total-bound, total_change, update, update_ne, update_self, ℕ, ◌+◌, ◌*◌, ◌<◌, ◌≡◌,
  ◌≢◌, ◌^◌, ◌==◌, Bool-cases, inl, inr, ==_iff, arith, refl, sym, ap, ◌∙◌, subst, u32, ℕ_discrete,
}
use networking_howto.Locks.Threads.{Section, Pc, outside, waiting, inside, loading, after_attempt}
use networking_howto.Locks.Excludes.{Excludes}
use networking_howto.Locks.Ticket.{
  TicketLock, TicketWait, take_ticket, ticket_lock_init, ticket_lock_acquire, ticket_lock_release,
  next_round, ticket_lock,
}
use networking_howto.Locks.Ticket.Order.{
  active, active-bound, Placed, Placed-issued, Placed-more, Placed-served, Tickets, keep-Tickets,
}

start-Tickets : (n : ℕ) → Tickets n ticket_lock_init (λ t. outside)
start-Tickets n = record {
  served = 0;
  issued = 0;
  number = λ u. 0;
  now = refl;
  next = refl;
  counted =
      let none_yet = total-all n 0 (λ u. 0) (λ u l. refl) in
      let product : n * 0 ≡ 0 = grind arith in omega (arith, none_yet, product);
  placed = λ u l. tt;
  distinct = λ u v l l' a a' e. absurd (omega (arith, a));
}

module _ {n : ℕ} (few : n < 2 ^ 32) {lock : TicketLock} {pc : ℕ → Pc TicketWait} (t : ℕ) (l : t < n)
    (order : Tickets n lock pc) where
  -- A ticket is recognised through the wrap, since at most `n` of them are out.
  served_now :
      (w : TicketWait)
      → pc t ≡ waiting w
      → lock.now_serving ≡ w.ticket
      → order.number t ≡ order.served
  served_now w at same =
      let placed : Placed order.served order.issued (order.number t) (waiting w) =
        subst (Placed order.served order.issued (order.number t)) at (order.placed t l) in
      let from = placed.0 in
      let below = placed.1 in
      let is_ticket = placed.2 in
      let now = order.now in
      let counted = order.counted in
      let bound = total-bound n (λ u. active (pc u)) (λ u. active-bound (pc u)) in
      omega (arith, from, below, is_ticket, now, counted, bound, few, same)

  enter-Tickets :
      (w : TicketWait)
      → pc t ≡ waiting w
      → lock.now_serving ≡ w.ticket
      → Tickets n lock (update pc t (inside loading))
  enter-Tickets w at same = keep-Tickets t (inside loading) order (sym (ap active at)) (λ l'. (
    served_now w at same,
    Placed-issued order.served order.issued (order.number t) (pc t) (order.placed t l)
        (ap active at),
  ))

  wait-Tickets :
      (w : TicketWait) → pc t ≡ waiting w → Tickets n lock (update pc t (waiting (next_round w)))
  wait-Tickets w at =
      keep-Tickets t (waiting (next_round w)) order (sym (ap active at))
        (λ l'. subst (Placed order.served order.issued (order.number t)) at (order.placed t l))

  move-Tickets : (c c' : Section) → pc t ≡ inside c → Tickets n lock (update pc t (inside c'))
  move-Tickets c c' at =
      keep-Tickets t (inside c') order (sym (ap active at))
        (λ l'. subst (Placed order.served order.issued (order.number t)) at (order.placed t l))

  -- A thread that was active has a number below the next ticket's.
  old_number :
      (p : Pc TicketWait) (v : ℕ)
      → v ≢ t
      → v < n
      → active (update pc t p v) ≡ 1
      → update order.number t order.issued v < order.issued
  old_number p v ne l' a =
      let same = update_ne order.number t order.issued v ne in
      let below =
        Placed-issued order.served order.issued (order.number v) (pc v) (order.placed v l')
          (sym (ap active (update_ne pc t p v ne)) ∙ a) in
      omega (arith, same, below)

  own_number : (u : ℕ) → u ≡ t → update order.number t order.issued u ≡ order.issued
  own_number u e =
      ap (update order.number t order.issued) e ∙ update_self order.number t order.issued

  new_number :
      (p : Pc TicketWait) (u v : ℕ)
      → u < n
      → v < n
      → active (update pc t p u) ≡ 1
      → active (update pc t p v) ≡ 1
      → update order.number t order.issued u ≡ update order.number t order.issued v
      → u ≡ v
  new_number p u v l' l'' a a' e = elim (ℕ_discrete u t) [
    | yes is ↦ elim (ℕ_discrete v t) [
      | yes is' ↦ is ∙ sym is'
      | no ne' ↦
          let own = own_number u is in
          let old = old_number p v ne' l'' a' in absurd (omega (arith, own, old, e))
    ]
    | no ne ↦ elim (ℕ_discrete v t) [
      | yes is' ↦
          let own = own_number v is' in
          let old = old_number p u ne l' a in absurd (omega (arith, own, old, e))
      | no ne' ↦
          order.distinct u v l' l'' (sym (ap active (update_ne pc t p u ne)) ∙ a)
            (sym (ap active (update_ne pc t p v ne')) ∙ a')
            (sym (update_ne order.number t order.issued u ne)
              ∙ e
              ∙ update_ne order.number t order.issued v ne')
    ]
  ]

  begin-Tickets :
      pc t ≡ outside → Tickets n (take_ticket lock).0 (update pc t (waiting (take_ticket lock).1))
  begin-Tickets at = record {
    served = order.served;
    issued = order.issued + 1;
    number = update order.number t order.issued;
    now = order.now;
    next = let next = order.next in omega (arith, next);
    counted =
        let w = (take_ticket lock).1 in
        let counted = order.counted in
        let change =
          total_change n t (λ u. active (update pc t (waiting w) u)) (λ u. active (pc u)) l
            (λ u ne. ap active (update_ne pc t (waiting w) u ne)) in
        let before = ap active at in
        let then = ap active (update_self pc t (waiting w)) in
        omega (arith, counted, change, before, then);
    placed =
        let w = (take_ticket lock).1 in
        each
          (λ u q.
            u < n → Placed order.served (order.issued + 1) (update order.number t order.issued u) q)
          pc t (waiting w)
          (λ l'.
            let self = update_self order.number t order.issued in
            let counted = order.counted in
            let next = order.next in
            (omega (arith, self, counted), omega (arith, self), next ∙ ap u32 (sym self)))
          (λ u ne l'.
            subst (λ k. Placed order.served (order.issued + 1) k (pc u))
              (sym (update_ne order.number t order.issued u ne))
              (Placed-more order.served order.issued (order.number u) (pc u) (order.placed u l')));
    distinct = new_number (waiting (take_ticket lock).1);
  }

  -- A thread that has left is not active.
  still_active : (u : ℕ) → active (update pc t outside u) ≡ 1 → (u ≢ t) × (active (pc u) ≡ 1)
  still_active u a = elim (ℕ_discrete u t) [
    | yes is ↦
        let gone = ap (λ v. active (update pc t outside v)) is in
        let here = ap active (update_self pc t outside) in absurd (omega (arith, gone, here, a))
    | no ne ↦ (ne, sym (ap active (update_ne pc t outside u ne)) ∙ a)
  ]

  release-Tickets :
      (c : Section) → pc t ≡ inside c → Tickets n (ticket_lock_release lock) (update pc t outside)
  unfolding ticket_lock_release
  release-Tickets c at =
      let first : order.number t ≡ order.served =
        (subst (Placed order.served order.issued (order.number t)) at (order.placed t l)).0 in
      record {
        served = order.served + 1;
        issued = order.issued;
        number = order.number;
        now = let now = order.now in omega (arith, now);
        next = order.next;
        counted =
            let counted = order.counted in
            let change =
              total_change n t (λ u. active (update pc t outside u)) (λ u. active (pc u)) l
                (λ u ne. ap active (update_ne pc t outside u ne)) in
            let before = ap active at in
            let then = ap active (update_self pc t outside) in
            omega (arith, counted, change, before, then);
        placed =
            each (λ u q. u < n → Placed (order.served + 1) order.issued (order.number u) q) pc t
              outside (λ l'. tt)
              (λ u ne l'.
                Placed-served order.served order.issued (order.number u) (pc u) (order.placed u l')
                  (λ a e. ne (order.distinct u t l' l a (ap active at) (e ∙ sym first))));
        distinct = λ u v l' l'' a a' e.
            order.distinct u v l' l'' (still_active u a).1 (still_active v a').1 e;
      }

module _ {n : ℕ} (few : n < 2 ^ 32) where
  attempt-Tickets :
      (lock : TicketLock) (pc : ℕ → Pc TicketWait) (t : ℕ) (w : TicketWait)
      → t < n
      → Tickets n lock pc
      → pc t ≡ waiting w
      → Tickets n
          (ticket_lock_acquire w lock).0
          (update pc t (after_attempt ticket_lock (ticket_lock_acquire w lock).1))
  unfolding ticket_lock_acquire
  attempt-Tickets lock pc t w l order at = elim (Bool-cases (lock.now_serving == w.ticket)) [
    | inl same ↦
        rw same (enter-Tickets few t l order w at ((==_iff lock.now_serving w.ticket).0 same))
    | inr differs ↦ rw differs (wait-Tickets few t l order w at)
  ]

  pub ticket_lock-Excludes : Excludes ticket_lock n
  ticket_lock-Excludes = record {
    Holds = Tickets n;
    starts = start-Tickets n;
    begins = λ lock pc t l order at. begin-Tickets few t l order at;
    attempts = attempt-Tickets;
    moves = λ lock pc t c c' l order at. move-Tickets few t l order c c' at;
    releases = λ lock pc t c l order at. release-Tickets few t l order c at;
    exclusive = λ lock pc t u c c' l l' order at at'.
        order.distinct t u l l' (ap active at) (ap active at') (
          (subst (Placed order.served order.issued (order.number t)) at (order.placed t l)).0
          ∙ sym
              (subst (Placed order.served order.issued (order.number u)) at'
                (order.placed u l')).0);
  }
