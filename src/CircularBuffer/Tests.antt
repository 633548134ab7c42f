-- ===== src/CircularBuffer/Tests.antt =====
-- Runs of the queue of circular-buffer.c, and the theorems about it at concrete queues.
use networking_howto.Prelude.{
  ℕ, ◌+◌, ◌-◌, ◌≤◌, ◌<◌, ◌≡◌, ◌↔◌, ◌^◌, true, false, Option, none, some, List, [], ◌∷◌, ◌++◌,
  length, replicate, length-replicate, arith, refl, ap, u32, ◌∙◌, sym,
}
use mathlib.Core.Option.{some-injective}
use networking_howto.CircularBuffer.{
  Queue, slot, load_elem, queue_init, queue_enqueue, queue_dequeue, queue_enqueue_simple,
  queue_dequeue_simple,
}
use networking_howto.CircularBuffer.Threads.{
  Config, Thread, producer_turn, consumer_turn, run, start,
}
use networking_howto.CircularBuffer.Invariant.{CallocWorks, pow-IsSize, queue_init_iff}
use networking_howto.CircularBuffer.Safety.{
  Failed, fifo_delivery, in_flight, write_in_range, read_in_range,
}
use networking_howto.CircularBuffer.Sequential.{push, pop, contents, Numbered, IsQueue, IsCached}
use networking_howto.CircularBuffer.Refine.{
  queue_enqueue_simple_refines, queue_dequeue_simple_refines, queue_enqueue_refines,
  queue_dequeue_refines,
}

abbrev calloc : ℕ → Option (List ℕ)
calloc n = some (replicate n 0)

calloc-CallocWorks : CallocWorks calloc
calloc-CallocWorks size zeroed e =
    let l : length (replicate size 0) ≡ length zeroed = ap length (some-injective _ _ e) in
    sym l ∙ length-replicate size 0

-- Two slots, counters just below the 32-bit wrap: 7 and 8 are in the queue.
abbrev wrapping : Queue
wrapping = record {
  buf = 8 ∷ 7 ∷ [];
  size = 2;
  cached_head = 2 ^ 32 - 1;
  cached_tail = 2 ^ 32 - 1;
  head = 2 ^ 32 - 1;
  tail = 1;
}

abbrev fresh : Queue
fresh = record { buf = 0 ∷ 0 ∷ []; size = 2; cached_head = 0; cached_tail = 0; head = 0; tail = 0 }

abbrev cached : Config
cached = record { simple = false; num_iterations = 3 }

abbrev simple : Config
simple = record { simple = true; num_iterations = 3 }

-- The producer fills the queue and finds it full, the consumer takes one.
abbrev turns : List Thread
turns = replicate 11 producer_turn ++ replicate 3 consumer_turn

init_fresh : queue_init calloc 2 ≡ some fresh
unfolding queue_init
init_fresh = refl

init_three : queue_init calloc 3 ≡ none
unfolding queue_init
init_three = refl

contents-wrapping : contents wrapping ≡ 7 ∷ 8 ∷ []
unfolding contents
contents-wrapping = refl

enqueue_full : queue_enqueue wrapping 9 ≡ (wrapping, false)
unfolding queue_enqueue
enqueue_full = refl

dequeue_wraps : (queue_dequeue wrapping).1 ≡ some 7
unfolding queue_dequeue
dequeue_wraps = refl

run_both :
    ((run cached turns (start fresh)).snd_i ≡ 2) × ((run cached turns (start fresh)).rcv_i ≡ 0)
unfolding run
run_both = (refl, refl)

queue_init_iff_example :
    ((queue : Queue) × (queue_init calloc 2 ≡ some queue))
    ↔ (((k : ℕ) × (2 ≡ 2 ^ k)) × ((zeroed : List ℕ) × (calloc 2 ≡ some zeroed)))
queue_init_iff_example = queue_init_iff calloc 2

fifo_delivery_example :
    let s = run cached turns (start fresh) in
    ¬ Failed s × (s.rcv_i ≤ s.snd_i) × (s.snd_i ≤ s.rcv_i + 2)
fifo_delivery_example =
    fifo_delivery cached calloc 2 fresh calloc-CallocWorks (omega arith) (omega arith) init_fresh
      turns

in_flight_example : load_elem (run cached turns (start fresh)).queue (u32 1) ≡ 1
unfolding run
in_flight_example =
    in_flight cached calloc 2 fresh calloc-CallocWorks (omega arith) (omega arith) init_fresh turns
      1 (omega arith) (omega arith)

-- One element is sent, and the producer is about to write the next.
abbrev sending : List Thread
sending = replicate 4 producer_turn

write_in_range_example :
    let s = run cached sending (start fresh) in
    (slot s.queue 1 < length s.queue.buf)
    × (¬ ((j : ℕ) × (s.rcv_i ≤ j) × (j < s.snd_i) × (slot s.queue (u32 j) ≡ slot s.queue 1)))
unfolding run
write_in_range_example =
    write_in_range cached calloc 2 fresh calloc-CallocWorks (omega arith) (omega arith) init_fresh
      sending 1 refl

-- One element is sent, and the consumer is about to read it.
abbrev receiving : List Thread
receiving = replicate 3 producer_turn ++ replicate 2 consumer_turn

read_in_range_example :
    let s = run cached receiving (start fresh) in
    (slot s.queue 0 < length s.queue.buf) × (load_elem s.queue 0 ≡ s.rcv_i)
unfolding run
read_in_range_example =
    read_in_range cached calloc 2 fresh calloc-CallocWorks (omega arith) (omega arith) init_fresh
      receiving 0 refl

wrapping-Numbered : Numbered 2 (2 ^ 32 - 1) (2 ^ 32 + 1) wrapping
wrapping-Numbered = record {
  valid = pow-IsSize 1 (omega arith);
  sized = refl;
  room = refl;
  head_is = refl;
  tail_is = refl;
  taken = omega arith;
  fits = omega arith;
}

wrapping-IsQueue : IsQueue 2 wrapping
wrapping-IsQueue = record { rcv = 2 ^ 32 - 1; snd = 2 ^ 32 + 1; numbers = wrapping-Numbered }

wrapping-IsCached : IsCached 2 wrapping
wrapping-IsCached = record {
  rcv = 2 ^ 32 - 1;
  snd = 2 ^ 32 + 1;
  numbers = wrapping-Numbered;
  old_head = record {
    number = 2 ^ 32 - 1;
    is_number = refl;
    not_after = omega arith;
    reaches = omega arith;
  };
  old_tail = record {
    number = 2 ^ 32 - 1;
    is_number = refl;
    not_before = omega arith;
    not_after = omega arith;
  };
}

queue_enqueue_simple_refines_example :
    let (queue', ok) = queue_enqueue_simple wrapping 9 in
    ((contents queue', ok) ≡ push 2 (contents wrapping) 9) × IsQueue 2 queue'
queue_enqueue_simple_refines_example = queue_enqueue_simple_refines 9 wrapping-IsQueue

queue_dequeue_simple_refines_example :
    let (queue', elem) = queue_dequeue_simple wrapping in
    ((contents queue', elem) ≡ pop (contents wrapping)) × IsQueue 2 queue'
queue_dequeue_simple_refines_example = queue_dequeue_simple_refines wrapping-IsQueue

queue_enqueue_refines_example :
    let (queue', ok) = queue_enqueue wrapping 9 in
    ((contents queue', ok) ≡ push 2 (contents wrapping) 9) × IsCached 2 queue'
queue_enqueue_refines_example = queue_enqueue_refines 9 wrapping-IsCached

queue_dequeue_refines_example :
    let (queue', elem) = queue_dequeue wrapping in
    ((contents queue', elem) ≡ pop (contents wrapping)) × IsCached 2 queue'
queue_dequeue_refines_example = queue_dequeue_refines wrapping-IsCached
