-- ===== src/Locks/Ticket.antt =====
-- ticket-lock.c: the lock that serves its threads by their tickets, on 32-bit counters that wrap.
pub mod Order
pub mod Exclusion
use networking_howto.Prelude.{
  ℕ, ◌+◌, ◌==◌, Bool, true, false, Option, none, some, if◌then◌else◌, u32,
}
use networking_howto.Locks.Threads.{SpinLock}

-- `TicketLock`
pub record TicketLock : Type 0 where
  pub next_ticket : ℕ
  pub now_serving : ℕ

abbrev cycles_to_yield : ℕ
cycles_to_yield = 10000

abbrev pub ticket_lock_init : TicketLock
ticket_lock_init = record { next_ticket = 0; now_serving = 0 }

-- The locals of `TicketLock_acquire`.
pub record TicketWait : Type 0 where
  pub ticket : ℕ
  pub iteration : ℕ

-- `TicketLock_acquire` up to its loop.
abbrev pub take_ticket : TicketLock → TicketLock × TicketWait
take_ticket lock = (
  record lock { next_ticket = u32 (lock.next_ticket + 1) },
  record { ticket = lock.next_ticket; iteration = 0 },
)

-- A round of its loop that does not end it; the yield has no effect on the lock.
abbrev pub next_round : TicketWait → TicketWait
next_round w =
    let iteration = if w.iteration == cycles_to_yield then 0 else w.iteration in
    record w { iteration = u32 (iteration + 1) }

-- The test of its loop.
unfoldable pub ticket_lock_acquire : TicketWait → TicketLock → TicketLock × Option TicketWait
ticket_lock_acquire w lock =
    (lock, if lock.now_serving == w.ticket then none else some (next_round w))

unfoldable pub ticket_lock_release : TicketLock → TicketLock
ticket_lock_release lock = record lock { now_serving = u32 (lock.now_serving + 1) }

abbrev pub ticket_lock : SpinLock
ticket_lock = record {
  State = TicketLock;
  Wait = TicketWait;
  init = ticket_lock_init;
  begin = take_ticket;
  attempt = ticket_lock_acquire;
  release = ticket_lock_release;
}
