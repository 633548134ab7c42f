-- ===== src/CircularBuffer/Safety.antt =====
-- What circular-buffer.c is written to show: what the producer sends, the consumer receives.
use networking_howto.Prelude.{
  ℕ, ◌+◌, ◌≤◌, ◌<◌, ◌≡◌, ◌≢◌, ◌^◌, List, Option, some, length, arith, u32, subst, ◌%◌,
}
use native.Mathlib.Nat.{mod-lt}
use networking_howto.CircularBuffer.{Queue, queue_init, load_elem, slot}
use networking_howto.CircularBuffer.Threads.{
  Config, Thread, System, ConsumerPc, ProducerPc, run, start,
}
use networking_howto.CircularBuffer.Invariant.{
  CallocWorks, queue_init-Fresh, Inv, Inv-start, run-Inv, ProducerKnows, ConsumerKnows, slot_ne,
}

-- A consumer that stands at the exit for a wrong element.
abbrev pub Failed : System → Type 0
Failed s = s.consumer ≡ ConsumerPc.mismatch

not-Failed : {c : Config} {m : ℕ} {s : System} → Inv c m s → ¬ Failed s
not-Failed {c} {s} inv e =
    subst (ConsumerKnows c s.rcv_i s.snd_i s.queue.cached_tail) e inv.consumer

slot_of : {c : Config} {m : ℕ} {s : System} → Inv c m s → (i : ℕ) → slot s.queue (u32 i) ≡ i % m
slot_of inv i = rw inv.sized (inv.valid.masked i)

slot_lt : {c : Config} {m : ℕ} {s : System} → Inv c m s → (i : ℕ) → i % m < length s.queue.buf
slot_lt inv i = omega (arith, mod-lt i inv.valid.pos)

write_place :
    {c : Config} {m : ℕ} {s : System} (tail : ℕ)
    → Inv c m s
    → ProducerKnows c m s.rcv_i s.snd_i s.queue.buf s.queue.cached_head (ProducerPc.writing tail)
    → (slot s.queue tail < length s.queue.buf)
      × ((j : ℕ) → s.rcv_i ≤ j → j < s.snd_i → slot s.queue (u32 j) ≢ slot s.queue tail)
write_place {s} tail inv (e, more, space) = (
  rw (e, slot_of inv s.snd_i) (slot_lt inv s.snd_i),
  λ j lo hi.
      rw (e, slot_of inv s.snd_i, slot_of inv j)
        (slot_ne _ j s.snd_i inv.valid.pos hi (omega (arith, space.0))),
)

read_place :
    {c : Config} {m : ℕ} {s : System} (head : ℕ)
    → Inv c m s
    → ConsumerKnows c s.rcv_i s.snd_i s.queue.cached_tail (ConsumerPc.reading head)
    → (slot s.queue head < length s.queue.buf) × (load_elem s.queue head ≡ s.rcv_i)
read_place {s} head inv (e, more, there) = (
  rw (e, slot_of inv s.rcv_i) (slot_lt inv s.rcv_i),
  rw (e, slot_of inv s.rcv_i) (inv.filled s.rcv_i (omega arith) there.0),
)

module _ (c : Config) (calloc : ℕ → Option (List ℕ)) (size : ℕ) (queue : Queue)
    (works : CallocWorks calloc) (small : size < 2 ^ 32) (few : c.num_iterations < 2 ^ 64)
    (init : queue_init calloc size ≡ some queue) where
  reach-Inv : (ts : List Thread) → Inv c size (run c ts (start queue))
  reach-Inv ts = run-Inv ts (Inv-start c small few (queue_init-Fresh calloc size queue works init))

  -- For either variant, every size that `queue_init` accepts, every number of iterations below 2^64
  -- and every interleaving: the consumer never meets a wrong element, it is never ahead of the
  -- producer, and the producer is at most `size` elements ahead.
  pub fifo_delivery :
      (ts : List Thread)
      → let s = run c ts (start queue) in
        ¬ Failed s × (s.rcv_i ≤ s.snd_i) × (s.snd_i ≤ s.rcv_i + size)
  fifo_delivery ts = let inv = reach-Inv ts in (not-Failed inv, inv.taken, inv.fits)

  -- Under the same conditions, each element that is sent and not yet received lies in the slot from
  -- which it will be read.
  pub in_flight :
      (ts : List Thread) (j : ℕ)
      → let s = run c ts (start queue) in s.rcv_i ≤ j → j < s.snd_i → load_elem s.queue (u32 j) ≡ j
  in_flight ts j lo hi = let inv = reach-Inv ts in rw (slot_of inv j) (inv.filled j lo hi)

  -- Under the same conditions, a producer that is about to write does so inside the array, also into
  -- an empty queue, and never into the slot of an element that is sent and not yet received.
  pub write_in_range :
      (ts : List Thread) (tail : ℕ)
      → let s = run c ts (start queue) in
        s.producer ≡ ProducerPc.writing tail
        → (slot s.queue tail < length s.queue.buf)
          × (¬ (
              (j : ℕ) × (s.rcv_i ≤ j) × (j < s.snd_i) × (slot s.queue (u32 j) ≡ slot s.queue tail)))
  write_in_range ts tail e =
      let s = run c ts (start queue) in
      let inv = reach-Inv ts in
      let knows = ProducerKnows c size s.rcv_i s.snd_i s.queue.buf s.queue.cached_head in
      let place = write_place tail inv (subst knows e inv.producer) in
      (place.0, λ (j, lo, hi, same). place.1 j lo hi same)

  -- Under the same conditions, a consumer that is about to read does so inside the array, and reads
  -- the element that it expects next.
  pub read_in_range :
      (ts : List Thread) (head : ℕ)
      → let s = run c ts (start queue) in
        s.consumer ≡ ConsumerPc.reading head
        → (slot s.queue head < length s.queue.buf) × (load_elem s.queue head ≡ s.rcv_i)
  read_in_range ts head e =
      let s = run c ts (start queue) in
      let inv = reach-Inv ts in
      read_place head inv
        (subst (ConsumerKnows c s.rcv_i s.snd_i s.queue.cached_tail) e inv.consumer)
