-- ===== src/CircularBuffer/Refine.antt =====
-- Both variants of the queue of circular-buffer.c implement the bounded FIFO.
use networking_howto.Prelude.{
  ℕ, ◌+◌, ◌<◌, ◌≡◌, true, false, none, some, List, [], ◌∷◌, arith, refl, sub32, ◌==◌, Bool-cases,
  inl, inr, Option, length,
}
use networking_howto.CircularBuffer.{
  Queue, load_elem, put, get, queue_enqueue, queue_dequeue, queue_enqueue_simple,
  queue_dequeue_simple,
}
use networking_howto.CircularBuffer.Invariant.{
  distance, OldHead-later, OldTail-later, room_by, elem_by,
}
use networking_howto.CircularBuffer.Sequential.{
  push, pop, contents, IsQueue, IsCached, length-contents, put-Numbered, get-Numbered, contents-put,
  contents-get, contents_of_caches, caches-Numbered, Numbered,
}

nil_of_length : (xs : List ℕ) → length xs ≡ 0 → xs ≡ []
nil_of_length [] h = refl
nil_of_length (x ∷ xs) h = absurd (omega arith)

module _ {m rcv snd : ℕ} {queue : Queue} (q : Numbered m rcv snd queue) where
  open q use {valid, head_is, tail_is, taken, fits}

  full_iff : (sub32 queue.tail queue.head == queue.size) ≡ (length (contents queue) == m)
  full_iff = ground (arith, q.sized, length-contents q, distance m rcv snd valid.small taken fits)

  room_left : (sub32 queue.tail queue.head == queue.size) ≡ false → snd < rcv + m
  room_left e = ground (arith, q.sized, distance m rcv snd valid.small taken fits)

  elem_left : (queue.tail == queue.head) ≡ false → rcv < snd
  elem_left e = ground arith

  none_left : (queue.tail == queue.head) ≡ true → contents queue ≡ []
  none_left e = nil_of_length (contents queue) (ground (arith, length-contents q, valid.small))

  put_refines :
      (x : ℕ)
      → snd < rcv + m
      → (contents (put queue queue.tail x), true) ≡ push m (contents queue) x
  unfolding push
  put_refines x more =
      let free : (length (contents queue) == m) ≡ false = ground (arith, length-contents q) in
      rw (free, contents-put q x more) refl

  full_refines :
      (x : ℕ)
      → (sub32 queue.tail queue.head == queue.size) ≡ true
      → (contents queue, false) ≡ push m (contents queue) x
  unfolding push
  full_refines x full = rw (← full_iff, full) refl

  get_refines :
      rcv < snd
      → (contents (get queue queue.head), some (load_elem queue queue.head)) ≡ pop (contents queue)
  unfolding pop
  get_refines more = rw (contents-get q more) refl

  empty_refines :
      (queue.tail == queue.head) ≡ true
      → ◌≡◌ {A = List ℕ × Option ℕ} (contents queue, none) (pop (contents queue))
  unfolding pop
  empty_refines e = rw (none_left e) refl

-- `queue_enqueue_simple` accepts the element and puts it at the end, unless the queue holds `size`
-- elements: then it returns false and the queue holds the same as before. It keeps the invariant.
pub queue_enqueue_simple_refines :
    {m : ℕ} {queue : Queue} (x : ℕ)
    → IsQueue m queue
    → let (queue', ok) = queue_enqueue_simple queue x in
      ((contents queue', ok) ≡ push m (contents queue) x) × IsQueue m queue'
unfolding queue_enqueue_simple
queue_enqueue_simple_refines {queue} x q =
    elim (Bool-cases (sub32 queue.tail queue.head == queue.size)) [
      | inl full ↦ rw full (full_refines q.numbers x full, q)
      | inr free ↦
          let more = room_left q.numbers free in
          rw free (
            put_refines q.numbers x more,
            record { rcv = q.rcv; snd = q.snd + 1; numbers = put-Numbered q.numbers x more },
          )
    ]

-- `queue_dequeue_simple` takes the oldest element and returns it, unless the queue is empty: then it
-- returns false and the queue stays empty. It keeps the invariant.
pub queue_dequeue_simple_refines :
    {m : ℕ} {queue : Queue}
    → IsQueue m queue
    → let (queue', elem) = queue_dequeue_simple queue in
      ((contents queue', elem) ≡ pop (contents queue)) × IsQueue m queue'
unfolding queue_dequeue_simple
queue_dequeue_simple_refines {queue} q = elim (Bool-cases (queue.tail == queue.head)) [
  | inl empty ↦ rw empty (empty_refines q.numbers empty, q)
  | inr some_left ↦
      let more = elem_left q.numbers some_left in
      rw some_left (
        get_refines q.numbers more,
        record { rcv = q.rcv + 1; snd = q.snd; numbers = get-Numbered q.numbers more },
      )
]

module _ {m : ℕ} {queue : Queue} (q : IsCached m queue) where
  open q use {rcv, snd, numbers, old_head, old_tail}
  open numbers use {valid, sized, head_is, tail_is, taken, fits}

  refresh_head : IsCached m (record queue { cached_head = queue.head })
  refresh_head = record {
    rcv = rcv;
    snd = snd;
    numbers = caches-Numbered numbers queue.head queue.cached_tail;
    old_head = record {
      number = rcv;
      is_number = head_is;
      not_after = omega arith;
      reaches = fits;
    };
    old_tail = old_tail;
  }

  refresh_tail : IsCached m (record queue { cached_tail = queue.tail })
  refresh_tail = record {
    rcv = rcv;
    snd = snd;
    numbers = caches-Numbered numbers queue.cached_head queue.tail;
    old_head = old_head;
    old_tail = record {
      number = snd;
      is_number = tail_is;
      not_before = taken;
      not_after = omega arith;
    };
  }

  -- By the cached head there is room.
  enqueues :
      (x : ℕ)
      → (sub32 queue.tail queue.cached_head == queue.size) ≡ false
      → ((contents (put queue queue.tail x), true) ≡ push m (contents queue) x)
        × IsCached m (put queue queue.tail x)
  enqueues x free =
      let room = room_by valid old_head tail_is (rw sized at free) in
      (
        put_refines numbers x room.0,
        record {
          rcv = rcv;
          snd = snd + 1;
          numbers = put-Numbered numbers x room.0;
          old_head = room.1;
          old_tail = OldTail-later old_tail;
        },
      )

  -- By the cached tail there is an element.
  dequeues :
      (queue.cached_tail == queue.head) ≡ false
      → ((contents (get queue queue.head), some (load_elem queue queue.head))
          ≡ pop (contents queue))
        × IsCached m (get queue queue.head)
  dequeues some_left =
      let there = elem_by old_tail head_is some_left in
      (
        get_refines numbers there.0,
        record {
          rcv = rcv + 1;
          snd = snd;
          numbers = get-Numbered numbers there.0;
          old_head = OldHead-later old_head;
          old_tail = there.1;
        },
      )

-- `queue_enqueue`, whatever its cache holds, does what `queue_enqueue_simple` does: it puts the
-- element at the end, or returns false and keeps the elements if there are `size` of them.
pub queue_enqueue_refines :
    {m : ℕ} {queue : Queue} (x : ℕ)
    → IsCached m queue
    → let (queue', ok) = queue_enqueue queue x in
      ((contents queue', ok) ≡ push m (contents queue) x) × IsCached m queue'
unfolding queue_enqueue
queue_enqueue_refines {queue} x q =
    elim (Bool-cases (sub32 queue.tail queue.cached_head == queue.size)) [
      | inr free ↦ rw free (enqueues q x free)
      | inl stale ↦ rw stale (elim (Bool-cases (sub32 queue.tail queue.head == queue.size)) [
        | inl full ↦ rw full (
          rw (contents_of_caches q.numbers queue.head queue.cached_tail)
              (full_refines q.numbers x full),
          refresh_head q,
        )
        | inr free ↦
            rw (free, ← contents_of_caches q.numbers queue.head queue.cached_tail)
              (enqueues (refresh_head q) x free)
      ])
    ]

-- `queue_dequeue`, whatever its cache holds, does what `queue_dequeue_simple` does: it takes the
-- oldest element, or returns false if there is none.
pub queue_dequeue_refines :
    {m : ℕ} {queue : Queue}
    → IsCached m queue
    → let (queue', elem) = queue_dequeue queue in
      ((contents queue', elem) ≡ pop (contents queue)) × IsCached m queue'
unfolding queue_dequeue
queue_dequeue_refines {queue} q = elim (Bool-cases (queue.cached_tail == queue.head)) [
  | inr some_left ↦ rw some_left (dequeues q some_left)
  | inl stale ↦ rw stale (elim (Bool-cases (queue.tail == queue.head)) [
    | inl empty ↦ rw empty (
      rw (contents_of_caches q.numbers queue.cached_head queue.tail)
          (empty_refines q.numbers empty),
      refresh_tail q,
    )
    | inr some_left ↦
        rw (some_left, ← contents_of_caches q.numbers queue.cached_head queue.tail)
          (dequeues (refresh_tail q) some_left)
  ])
]
