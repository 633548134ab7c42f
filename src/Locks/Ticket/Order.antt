-- ===== src/Locks/Ticket/Order.antt =====
-- The tickets of ticket-lock.c without the wrap: each thread that waits or is inside has a number of
-- its own, between the number served and the next one to be given out.
use networking_howto.Prelude.{
  each, total, total_same, update, ℕ, ◌+◌, ◌≤◌, ◌<◌, ◌≡◌, ◌≢◌, arith, refl, sym, ap, ◌∙◌, u32,
}
use networking_howto.Locks.Threads.{Pc, outside, waiting, inside}
use networking_howto.Locks.Ticket.{TicketLock, TicketWait}

abbrev pub active : Pc TicketWait → ℕ
active outside = 0
active (waiting w) = 1
active (inside c) = 1

pub active-bound : (p : Pc TicketWait) → active p ≤ 1
active-bound outside = omega arith
active-bound (waiting w) = omega arith
active-bound (inside c) = omega arith

abbrev pub Placed : (served issued number : ℕ) → Pc TicketWait → Type 0
Placed served issued number outside = Unit
Placed served issued number (waiting w) =
    (served ≤ number) × (number < issued) × (w.ticket ≡ u32 number)
Placed served issued number (inside c) = (number ≡ served) × (number < issued)

pub Placed-issued :
    (served issued number : ℕ) (p : Pc TicketWait)
    → Placed served issued number p
    → active p ≡ 1
    → number < issued
Placed-issued served issued number outside placed e = absurd (omega (arith, e))
Placed-issued served issued number (waiting w) placed e = placed.1
Placed-issued served issued number (inside c) placed e = placed.1

pub Placed-more :
    (served issued number : ℕ) (p : Pc TicketWait)
    → Placed served issued number p
    → Placed served (issued + 1) number p
Placed-more served issued number outside placed = tt
Placed-more served issued number (waiting w) placed =
    let below = placed.1 in (placed.0, omega (arith, below), placed.2)
Placed-more served issued number (inside c) placed =
    let below = placed.1 in (placed.0, omega (arith, below))

-- When the thread served leaves, the others have later numbers.
pub Placed-served :
    (served issued number : ℕ) (p : Pc TicketWait)
    → Placed served issued number p
    → (active p ≡ 1 → number ≢ served)
    → Placed (served + 1) issued number p
Placed-served served issued number outside placed later = tt
Placed-served served issued number (waiting w) placed later =
    let from = placed.0 in let ne = later refl in (omega (arith, from, ne), placed.1, placed.2)
Placed-served served issued number (inside c) placed later = absurd (later refl placed.0)

pub record Tickets (n : ℕ) (lock : TicketLock) (pc : ℕ → Pc TicketWait) : Type 0 where
  pub served : ℕ
  pub issued : ℕ
  pub number : ℕ → ℕ
  pub now : lock.now_serving ≡ u32 served
  pub next : lock.next_ticket ≡ u32 issued
  pub counted : issued ≡ served + total n (λ u. active (pc u))
  pub placed : (u : ℕ) → u < n → Placed served issued (number u) (pc u)
  pub distinct :
      (u v : ℕ)
      → u < n
      → v < n
      → active (pc u) ≡ 1
      → active (pc v) ≡ 1
      → number u ≡ number v
      → u ≡ v

pub active_same :
    (pc : ℕ → Pc TicketWait) (t : ℕ) (p : Pc TicketWait)
    → active p ≡ active (pc t)
    → (u : ℕ) → active (update pc t p u) ≡ active (pc u)
active_same pc t p same u = each (λ v q. active q ≡ active (pc v)) pc t p same (λ v ne. refl) u

module _ {n : ℕ} {lock : TicketLock} {pc : ℕ → Pc TicketWait} where
  -- A thread that keeps its number.
  pub keep-Tickets :
      (t : ℕ) (p : Pc TicketWait) (order : Tickets n lock pc)
      → active p ≡ active (pc t)
      → (t < n → Placed order.served order.issued (order.number t) p)
      → Tickets n lock (update pc t p)
  keep-Tickets t p order same here = record {
    served = order.served;
    issued = order.issued;
    number = order.number;
    now = order.now;
    next = order.next;
    counted =
        order.counted
        ∙ ap (λ k. order.served + k) (sym (total_same n _ _ (λ u l. active_same pc t p same u)));
    placed =
        each (λ u q. u < n → Placed order.served order.issued (order.number u) q) pc t p here
          (λ u ne. order.placed u);
    distinct = λ u v l l' a a' e.
        order.distinct u v l l' (sym (active_same pc t p same u) ∙ a)
          (sym (active_same pc t p same v) ∙ a') e;
  }
