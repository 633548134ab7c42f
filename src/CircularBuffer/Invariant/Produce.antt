-- ===== src/CircularBuffer/Invariant/Produce.antt =====
-- A step of `thread_producer` keeps the invariant.
use networking_howto.Prelude.{
  ℕ, ◌+◌, ◌%◌, ◌≤◌, ◌<◌, ◌≡◌, length, get_or, u32, u64, sub32, length-set, get_or-set_self,
  get_or-set_ne, arith, false, ◌==◌, ltb, ltb→lt, dec_lt, sym, ◌∙◌, Bool-cases, inl, inr,
}
use native.Mathlib.Nat.{mod-lt}
use networking_howto.CircularBuffer.{slot, store_elem}
use networking_howto.CircularBuffer.Threads.{
  Config, ProducerPc, ConsumerPc, System, producer_at, thread_producer, next_retry, enqueue_failed,
}
use networking_howto.CircularBuffer.Invariant.Slots.{slot_ne}
use networking_howto.CircularBuffer.Invariant.Caches.{room_by, OldTail-later}
use networking_howto.CircularBuffer.Invariant.Defs.{OldHead, ProducerKnows, ConsumerKnows, Inv}

-- The consumer's knowledge outlives a new element, the producer's a removed one.
consumer_later :
    (c : Config) (rcv snd ct : ℕ) (p : ConsumerPc)
    → ConsumerKnows c rcv snd ct p
    → ConsumerKnows c rcv (snd + 1) ct p
consumer_later c rcv snd ct ConsumerPc.call k = tt
consumer_later c rcv snd ct (ConsumerPc.have_head head) k = k
consumer_later c rcv snd ct (ConsumerPc.reading head) (e, more, there) =
    (e, more, (omega (arith, there.0), λ h. OldTail-later (there.1 h)))
consumer_later c rcv snd ct (ConsumerPc.publish head elem) (e, more, there, v) =
    (e, more, (omega (arith, there.0), λ h. OldTail-later (there.1 h)), v)
consumer_later c rcv snd ct ConsumerPc.mismatch k = k

module _ {c : Config} {m : ℕ} {s : System} (inv : Inv c m s) where
  open inv use {
    valid, few, sized, room, head_is, tail_is, taken, fits, sent, old_head, old_tail, filled,
  }

  -- The producer moves to `p` and leaves all else as it is.
  moves :
      (p : ProducerPc)
      → ProducerKnows c m s.rcv_i s.snd_i s.queue.buf s.queue.cached_head p
      → Inv c m (record s { producer = p })
  moves p knows = record {
    valid = valid;
    few = few;
    sized = sized;
    room = room;
    head_is = head_is;
    tail_is = tail_is;
    taken = taken;
    fits = fits;
    sent = sent;
    old_head = old_head;
    old_tail = old_tail;
    filled = filled;
    producer = knows;
    consumer = inv.consumer;
  }

  retries : (r : ℕ) → Inv c m (record s { snd_retry = r })
  retries r = record {
    valid = valid;
    few = few;
    sized = sized;
    room = room;
    head_is = head_is;
    tail_is = tail_is;
    taken = taken;
    fits = fits;
    sent = sent;
    old_head = old_head;
    old_tail = old_tail;
    filled = filled;
    producer = inv.producer;
    consumer = inv.consumer;
  }

  -- The head as it is now, an old head from here on.
  this_head : OldHead m s.rcv_i s.snd_i s.queue.head
  this_head = record {
    number = s.rcv_i;
    is_number = head_is;
    not_after = omega arith;
    reaches = fits;
  }

  caches :
      (p : ProducerPc)
      → ProducerKnows c m s.rcv_i s.snd_i s.queue.buf s.queue.head p
      → Inv c m (record s { queue = record (s.queue) { cached_head = s.queue.head }; producer = p })
  caches p knows = record {
    valid = valid;
    few = few;
    sized = sized;
    room = room;
    head_is = head_is;
    tail_is = tail_is;
    taken = taken;
    fits = fits;
    sent = sent;
    old_head = λ _. this_head;
    old_tail = old_tail;
    filled = filled;
    producer = knows;
    consumer = inv.consumer;
  }

  has_room :
      {tail head : ℕ}
      → OldHead m s.rcv_i s.snd_i head
      → tail ≡ u32 s.snd_i
      → (sub32 tail head == s.queue.size) ≡ false
      → (s.snd_i < s.rcv_i + m) × OldHead m s.rcv_i (s.snd_i + 1) head
  has_room {tail} {head} old e full = room_by valid old e (rw sized at full)

  stores :
      (tail : ℕ)
      → ProducerKnows c m s.rcv_i s.snd_i s.queue.buf s.queue.cached_head (ProducerPc.writing tail)
      → Inv c m
          (record s { queue = store_elem s.queue tail s.snd_i; producer = ProducerPc.publish tail })
  stores tail (e, more, space) = record {
    valid = valid;
    few = few;
    sized = sized;
    room = length-set _ _ _ ∙ room;
    head_is = head_is;
    tail_is = tail_is;
    taken = taken;
    fits = fits;
    sent = sent;
    old_head = old_head;
    old_tail = old_tail;
    filled = kept;
    producer = (e, more, space, written);
    consumer = inv.consumer;
  }
    where
      at : slot s.queue tail ≡ s.snd_i % m
      at = rw (e, sized) (valid.masked s.snd_i)

      inside : s.snd_i % m < length s.queue.buf
      inside = omega (arith, mod-lt s.snd_i valid.pos)

      written : get_or (store_elem s.queue tail s.snd_i).buf (s.snd_i % m) 0 ≡ s.snd_i
      written = rw at (get_or-set_self s.queue.buf (s.snd_i % m) s.snd_i 0 inside)

      kept :
          (j : ℕ)
          → s.rcv_i ≤ j
          → j < s.snd_i
          → get_or (store_elem s.queue tail s.snd_i).buf (j % m) 0 ≡ j
      kept j lo hi = rw at (
          get_or-set_ne s.queue.buf (s.snd_i % m) (j % m) s.snd_i 0
            (λ same. slot_ne m j s.snd_i valid.pos hi (omega arith) (sym same))
          ∙ filled j lo hi)

  publishes :
      (tail : ℕ)
      → ProducerKnows c m s.rcv_i s.snd_i s.queue.buf s.queue.cached_head (ProducerPc.publish tail)
      → Inv c m (record s {
        queue = record (s.queue) { tail = u32 (tail + 1) };
        producer = ProducerPc.call;
        snd_i = u64 (s.snd_i + 1);
        snd_retry = 0;
      })
  publishes tail (e, more, space, written) =
      let next : u64 (s.snd_i + 1) ≡ s.snd_i + 1 = omega arith in
      rw next (record {
        valid = valid;
        few = few;
        sized = sized;
        room = room;
        head_is = head_is;
        tail_is = omega arith;
        taken = omega arith;
        fits = omega (arith, space.0);
        sent = omega arith;
        old_head = space.1;
        old_tail = λ h. OldTail-later (old_tail h);
        filled = newly_filled;
        producer = tt;
        consumer = consumer_later c s.rcv_i s.snd_i s.queue.cached_tail s.consumer inv.consumer;
      })
    where
      newly_filled : (j : ℕ) → s.rcv_i ≤ j → j < s.snd_i + 1 → get_or s.queue.buf (j % m) 0 ≡ j
      newly_filled j lo hi = elim (dec_lt j s.snd_i) [
        | yes old ↦ filled j lo old
        | no new ↦ let same : j ≡ s.snd_i = omega arith in rw same written
      ]

module _ {c : Config} {m : ℕ} {s : System} (inv : Inv c m s) where
  failed : Inv c m (enqueue_failed s)
  failed = retries (moves inv ProducerPc.call tt) (next_retry s.snd_retry)

  failed_stale :
      Inv c m
        (enqueue_failed (record s { queue = record (s.queue) { cached_head = s.queue.head } }))
  failed_stale = retries (caches inv ProducerPc.call tt) (next_retry s.snd_retry)

  called : Inv c m (producer_at c s ProducerPc.call)
  unfolding producer_at
  called = elim (Bool-cases (ltb s.snd_i c.num_iterations)) [
    | inr done ↦ rw done inv
    | inl more ↦ rw more (elim (Bool-cases c.simple) [
      | inl simple ↦
          simp simple
            (moves inv (ProducerPc.have_head s.queue.head) (simple, this_head inv, ltb→lt _ _ more))
      | inr cached ↦
          simp cached (elim (Bool-cases (sub32 s.queue.tail s.queue.cached_head == s.queue.size)) [
            | inl full ↦
                rw full (moves inv (ProducerPc.stale s.queue.tail) (inv.tail_is, ltb→lt _ _ more))
            | inr free ↦
                let space = has_room inv (inv.old_head cached) inv.tail_is free in
                rw free (
                  moves inv (ProducerPc.writing s.queue.tail)
                    (inv.tail_is, ltb→lt _ _ more, (space.0, λ _. space.1)))
          ])
    ])
  ]

  producer_at-Inv :
      (p : ProducerPc)
      → ProducerKnows c m s.rcv_i s.snd_i s.queue.buf s.queue.cached_head p
      → Inv c m (producer_at c s p)
  unfolding producer_at
  producer_at-Inv ProducerPc.call k = called
  producer_at-Inv (ProducerPc.have_head head) (simple, old, more) =
      elim (Bool-cases (sub32 s.queue.tail head == s.queue.size)) [
        | inl full ↦ rw full failed
        | inr free ↦ rw free (
            moves inv (ProducerPc.writing s.queue.tail)
              (inv.tail_is, more, ((has_room inv old inv.tail_is free).0, λ cached. cc)))
      ]
  producer_at-Inv (ProducerPc.stale tail) (e, more) =
      elim (Bool-cases (sub32 tail s.queue.head == s.queue.size)) [
        | inl full ↦ rw full failed_stale
        | inr free ↦
            let space = has_room inv (this_head inv) e free in
            rw free (caches inv (ProducerPc.writing tail) (e, more, (space.0, λ _. space.1)))
      ]
  producer_at-Inv (ProducerPc.writing tail) k = stores inv tail k
  producer_at-Inv (ProducerPc.publish tail) k = publishes inv tail k

pub thread_producer-Inv :
    {c : Config} {m : ℕ} {s : System} → Inv c m s → Inv c m (thread_producer c s)
unfolding thread_producer
thread_producer-Inv {s} inv = producer_at-Inv inv s.producer inv.producer
