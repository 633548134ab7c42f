-- ===== src/FileCopy/Uring/Tests/Device.antt =====
-- A kernel that carries out a request when it is asked for its completion.
use networking_howto.Prelude.{
  update, ℕ, zero, suc, ◌+◌, ◌-◌, ◌<◌, ◌≡◌, true, false, Option, none, some, if◌then◌else◌, ltb,
  arith, refl, ap, ◌∙◌, ℕ_discrete,
}
use networking_howto.Fileshare.Posix.{Posix}
use networking_howto.FileCopy.Uring.{Cqe, Ring, queue_size}
use networking_howto.FileCopy.Uring.Laws.{Request, reading, writing}

pub record Kernel : Type 0 where
  pub in_flight : ℕ → Option Request
  pub content : ℕ → ℕ
  pub buffer : ℕ → ℕ → ℕ
  pub unseen : Option Cqe

abbrev pub kernel_os : Posix
kernel_os = record {
  World = Kernel;
  errno = λ w. 0;
  received_sigint = λ w. false;
  write = λ fd buf w. (none, w);
  write_beyond = λ fd count w. (none, w);
  read = λ fd count w. (none, w);
  pread = λ fd count offset w. (none, w);
  recv = λ fd count waitall w. (none, w);
  pwrite = λ fd buf offset w. (none, w);
  open_read = λ filename w. (some 3, w);
  open_trunc = λ filename w. (some 4, w);
  fstat = λ fd w. (some 5000, w);
  fallocate = λ fd size w. (true, w);
  ftruncate = λ fd size w. (true, w);
  fsync = λ fd w. (true, w);
  close = λ fd w. (true, w);
  sigfillset = λ w. (true, w);
  sigaction = λ w. (true, w);
  socket = λ nonblock w. (none, w);
  setsockopt = λ fd opt w. (true, w);
  bind = λ fd port w. (true, w);
  listen = λ fd backlog w. (true, w);
  accept = λ fd w. (none, w);
  poll = λ pollfds nfds w. (none, w);
  epoll_create1 = λ w. (none, w);
  epoll_ctl_add = λ epollfd fd event w. (false, w);
  epoll_ctl_del = λ epollfd fd w. (false, w);
  epoll_wait = λ epollfd max_events w. (none, w);
}

-- The bytes of the source.
abbrev pub source_byte : ℕ → ℕ
source_byte i = i + 7

-- The greatest number below `k` with a request.
unfoldable pub some_request : (k : ℕ) → (ℕ → Option Request) → Option (ℕ × Request)
some_request zero f = none
some_request (suc k) f = elim (f k) [ some r ↦ some (k, r) | none ↦ some_request k f ]

abbrev pub carry_out : (tag : ℕ) → Request → Kernel → Kernel
carry_out tag (reading fd n o b) w = record w {
  in_flight = update w.in_flight tag none;
  buffer = update w.buffer b (λ j. source_byte (o + j));
}
carry_out tag (writing fd n o b) w = record w {
  in_flight = update w.in_flight tag none;
  content = λ i.
      if ltb i o then w.content i else if ltb i (o + n) then w.buffer b (i - o) else w.content i;
}

abbrev pub nbytes_of : Request → ℕ
nbytes_of (reading fd n o b) = n
nbytes_of (writing fd n o b) = n

abbrev pub completion : (tag : ℕ) → Request → Cqe
completion tag r = record { user_data = tag; res = some (nbytes_of r) }

abbrev pub peeked : Kernel → Option (ℕ × Request) → Option Cqe × Kernel
peeked w none = (none, w)
peeked w (some (tag, r)) =
    (some (completion tag r), record (carry_out tag r w) { unseen = some (completion tag r) })

-- A completion that is not marked as seen is found again.
abbrev pub found : Kernel → Option Cqe → Option Cqe × Kernel
found w none = peeked w (some_request queue_size w.in_flight)
found w (some c) = (some c, w)

abbrev pub marked : Option Cqe → Kernel → Kernel
marked none w = w
marked (some c) w = record w { unseen = none }

abbrev pub kernel_ring : Ring kernel_os
kernel_ring = record {
  queue_init = λ entries w. (true, w);
  register_buffers = λ count w. (true, w);
  prep_read_fixed =
      λ fd n o b t w. record w { in_flight = update w.in_flight t (some (reading fd n o b)) };
  prep_write_fixed =
      λ fd n o b t w. record w { in_flight = update w.in_flight t (some (writing fd n o b)) };
  submit_and_wait = λ n w. w;
  peek_cqe = λ w. found w w.unseen;
  cqe_seen = marked;
  queue_exit = λ w. w;
}

pub some_request-some :
    (k : ℕ) (f : ℕ → Option Request) (t : ℕ) (r : Request)
    → some_request k f ≡ some (t, r)
    → f t ≡ some r
unfolding some_request
some_request-some zero f t r e = absurd (cc)
some_request-some (suc k) f t r e = go (f k) refl (some_request-some k f t r) e
  where
    go :
        (o : Option Request)
        → f k ≡ o
        → (some_request k f ≡ some (t, r) → f t ≡ some r)
        → (elim o as (λ x. Option (ℕ × Request)) [ some q ↦ some (k, q) | none ↦ some_request k f ])
          ≡ some (t, r)
        → f t ≡ some r
    go none at ih h = ih h
    go (some q) at ih h = let t_is : k ≡ t = cc in let q_is : q ≡ r = cc in rw (← t_is, ← q_is) at

pub some_request-none :
    (k : ℕ) (f : ℕ → Option Request) (t : ℕ) → t < k → some_request k f ≡ none → f t ≡ none
unfolding some_request
some_request-none zero f t l e = absurd (omega arith)
some_request-none (suc k) f t l e = go (f k) refl (some_request-none k f t) e
  where
    go :
        (o : Option Request)
        → f k ≡ o
        → (t < k → some_request k f ≡ none → f t ≡ none)
        → (elim o as (λ x. Option (ℕ × Request)) [ some q ↦ some (k, q) | none ↦ some_request k f ])
          ≡ none
        → f t ≡ none
    go none at ih h = elim (ℕ_discrete t k) [
      | yes e' ↦ ap f e' ∙ at
      | no ne ↦ ih (omega (arith, l, ne)) h
    ]
    go (some q) at ih h = absurd (cc)
