-- ===== src/CircularBuffer/Invariant/Consume.antt =====
-- A step of `thread_consumer` keeps the invariant.
use networking_howto.Prelude.{
  ℕ, ◌+◌, ◌<◌, ◌≡◌, List, u32, u64, arith, ◌==◌, ltb, ltb→lt, Bool-cases, inl, inr, ==_iff, refl,
}
use networking_howto.CircularBuffer.{load_elem}
use networking_howto.CircularBuffer.Threads.{
  Config, ProducerPc, ConsumerPc, System, consumer_at, thread_consumer, next_retry, dequeue_failed,
}
use networking_howto.CircularBuffer.Invariant.Caches.{elem_by, OldHead-later}
use networking_howto.CircularBuffer.Invariant.Defs.{
  OldTail, HasElem, ProducerKnows, ConsumerKnows, Inv,
}

producer_later :
    (c : Config) (m rcv snd : ℕ) (buf : List ℕ) (ch : ℕ) (p : ProducerPc)
    → ProducerKnows c m rcv snd buf ch p
    → ProducerKnows c m (rcv + 1) snd buf ch p
producer_later c m rcv snd buf ch ProducerPc.call k = tt
producer_later c m rcv snd buf ch (ProducerPc.have_head head) (simple, old, more) =
    (simple, OldHead-later old, more)
producer_later c m rcv snd buf ch (ProducerPc.stale tail) k = k
producer_later c m rcv snd buf ch (ProducerPc.writing tail) (e, more, space) =
    (e, more, (omega (arith, space.0), λ h. OldHead-later (space.1 h)))
producer_later c m rcv snd buf ch (ProducerPc.publish tail) (e, more, space, w) =
    (e, more, (omega (arith, space.0), λ h. OldHead-later (space.1 h)), w)

module _ {c : Config} {m : ℕ} {s : System} (inv : Inv c m s) where
  open inv use {
    valid, few, sized, room, head_is, tail_is, taken, fits, sent, old_head, old_tail, filled,
  }

  -- The consumer moves to `p` and leaves all else as it is.
  moves :
      (p : ConsumerPc)
      → ConsumerKnows c s.rcv_i s.snd_i s.queue.cached_tail p
      → Inv c m (record s { consumer = p })
  moves p knows = record {
    valid = valid;
    few = few;
    sized = sized;
    room = room;
    head_is = head_is;
    tail_is = tail_is;
    taken = taken;
    fits = fits;
    sent = sent;
    old_head = old_head;
    old_tail = old_tail;
    filled = filled;
    producer = inv.producer;
    consumer = knows;
  }

  retries : (r : ℕ) → Inv c m (record s { rcv_retry = r })
  retries r = record {
    valid = valid;
    few = few;
    sized = sized;
    room = room;
    head_is = head_is;
    tail_is = tail_is;
    taken = taken;
    fits = fits;
    sent = sent;
    old_head = old_head;
    old_tail = old_tail;
    filled = filled;
    producer = inv.producer;
    consumer = inv.consumer;
  }

  this_tail : OldTail s.rcv_i s.snd_i s.queue.tail
  this_tail = record {
    number = s.snd_i;
    is_number = tail_is;
    not_before = taken;
    not_after = omega arith;
  }

  caches :
      (p : ConsumerPc)
      → ConsumerKnows c s.rcv_i s.snd_i s.queue.tail p
      → Inv c m (record s { queue = record (s.queue) { cached_tail = s.queue.tail }; consumer = p })
  caches p knows = record {
    valid = valid;
    few = few;
    sized = sized;
    room = room;
    head_is = head_is;
    tail_is = tail_is;
    taken = taken;
    fits = fits;
    sent = sent;
    old_head = old_head;
    old_tail = λ _. this_tail;
    filled = filled;
    producer = inv.producer;
    consumer = knows;
  }

  loaded : (head : ℕ) → head ≡ u32 s.rcv_i → s.rcv_i < s.snd_i → load_elem s.queue head ≡ s.rcv_i
  loaded head e more = rw (e, sized) (rw valid.masked (filled s.rcv_i (omega arith) more))

  publishes :
      (head : ℕ)
      → head ≡ u32 s.rcv_i
      → HasElem c s.rcv_i s.snd_i s.queue.cached_tail
      → Inv c m (record s {
        queue = record (s.queue) { head = u32 (head + 1) };
        consumer = ConsumerPc.call;
        rcv_i = u64 (s.rcv_i + 1);
        rcv_retry = 0;
      })
  publishes head e there =
      let next : u64 (s.rcv_i + 1) ≡ s.rcv_i + 1 = omega arith in
      rw next (record {
        valid = valid;
        few = few;
        sized = sized;
        room = room;
        head_is = omega arith;
        tail_is = tail_is;
        taken = omega (arith, there.0);
        fits = omega arith;
        sent = sent;
        old_head = λ h. OldHead-later (old_head h);
        old_tail = there.1;
        filled = λ j lo hi. filled j (omega arith) hi;
        producer =
            producer_later c m s.rcv_i s.snd_i s.queue.buf s.queue.cached_head s.producer
              inv.producer;
        consumer = tt;
      })

module _ {c : Config} {m : ℕ} {s : System} (inv : Inv c m s) where
  failed : Inv c m (dequeue_failed s)
  failed = retries (moves inv ConsumerPc.call tt) (next_retry s.rcv_retry)

  failed_stale :
      Inv c m
        (dequeue_failed (record s { queue = record (s.queue) { cached_tail = s.queue.tail } }))
  failed_stale = retries (caches inv ConsumerPc.call tt) (next_retry s.rcv_retry)

  called : Inv c m (consumer_at c s ConsumerPc.call)
  unfolding consumer_at
  called = elim (Bool-cases (ltb s.rcv_i c.num_iterations)) [
    | inr done ↦ rw done inv
    | inl more ↦
        let waits = moves inv (ConsumerPc.have_head s.queue.head) (inv.head_is, ltb→lt _ _ more) in
        rw more (elim (Bool-cases c.simple) [
          | inl simple ↦ simp simple waits
          | inr cached ↦ simp cached (elim (Bool-cases (s.queue.cached_tail == s.queue.head)) [
            | inl none_left ↦ rw none_left waits
            | inr some_left ↦
                let there = elem_by (inv.old_tail cached) inv.head_is some_left in
                rw some_left (
                  moves inv (ConsumerPc.reading s.queue.head)
                    (inv.head_is, ltb→lt _ _ more, (there.0, λ _. there.1)))
          ])
        ])
  ]

  looked :
      (head : ℕ)
      → head ≡ u32 s.rcv_i
      → s.rcv_i < c.num_iterations
      → Inv c m (consumer_at c s (ConsumerPc.have_head head))
  unfolding consumer_at
  looked head e more = elim (Bool-cases (s.queue.tail == head)) [
    | inl none_left ↦ rw none_left (elim (Bool-cases c.simple) [
      | inl simple ↦ simp simple failed
      | inr cached ↦ simp cached failed_stale
    ])
    | inr some_left ↦
        let there = elem_by (this_tail inv) e some_left in
        rw some_left (elim (Bool-cases c.simple) [
          | inl simple ↦
              simp simple (moves inv (ConsumerPc.reading head) (e, more, (there.0, λ cached. cc)))
          | inr cached ↦
              simp cached (caches inv (ConsumerPc.reading head) (e, more, (there.0, λ _. there.1)))
        ])
  ]

  consumer_at-Inv :
      (p : ConsumerPc)
      → ConsumerKnows c s.rcv_i s.snd_i s.queue.cached_tail p
      → Inv c m (consumer_at c s p)
  unfolding consumer_at
  consumer_at-Inv ConsumerPc.call k = called
  consumer_at-Inv (ConsumerPc.have_head head) (e, more) = looked head e more
  consumer_at-Inv (ConsumerPc.reading head) (e, more, there) =
      moves inv (ConsumerPc.publish head (load_elem s.queue head))
        (e, more, there, loaded inv head e there.0)
  consumer_at-Inv (ConsumerPc.publish head elem) (e, more, there, v) =
      rw (v, (==_iff s.rcv_i s.rcv_i).1 refl) (publishes inv head e there)
  consumer_at-Inv ConsumerPc.mismatch k = absurd k

pub thread_consumer-Inv :
    {c : Config} {m : ℕ} {s : System} → Inv c m s → Inv c m (thread_consumer c s)
unfolding thread_consumer
thread_consumer-Inv {s} inv = consumer_at-Inv inv s.consumer inv.consumer
