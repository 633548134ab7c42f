-- ===== src/CircularBuffer/Threads.antt =====
-- The producer and the consumer of circular-buffer.c, interleaved one shared access at a time.
-- Shared accesses are sequentially consistent; thread-local work goes with the access before it.
use networking_howto.Prelude.{
  ℕ, ◌+◌, Bool, List, [], ◌∷◌, if◌then◌else◌, ◌==◌, ltb, u32, u64, sub32,
}
use networking_howto.CircularBuffer.{Queue, store_elem, load_elem}

-- The build parameters: ENABLE_SIMPLE and NUM_ITERATIONS.
pub record Config : Type 0 where
  pub simple : Bool
  pub num_iterations : ℕ

-- NUM_RETRIES, with ENABLE_BACKOFF on.
abbrev pub num_retries : ℕ
num_retries = 10

-- `retry++`, and its reset with `pthread_yield`.
abbrev pub next_retry : ℕ → ℕ
next_retry retry = if u32 (retry + 1) == num_retries then 0 else u32 (retry + 1)

-- Where `thread_producer` stands, with the locals that are live there.
pub data ProducerPc : Type 0 where
  call : ProducerPc  -- at the for loop's test, or about to call the enqueue once more
  have_head : (head : ℕ) → ProducerPc  -- simple: head loaded, tail not yet
  stale : (tail : ℕ) → ProducerPc  -- cached: the cached head says full
  writing : (tail : ℕ) → ProducerPc  -- about to write the element
  publish : (tail : ℕ) → ProducerPc  -- about to store the new tail

-- Where `thread_consumer` stands.
pub data ConsumerPc : Type 0 where
  call : ConsumerPc
  have_head : (head : ℕ) → ConsumerPc  -- head loaded, the tail is needed
  reading : (head : ℕ) → ConsumerPc  -- about to read the element
  publish : (head elem : ℕ) → ConsumerPc  -- about to store the new head
  mismatch : ConsumerPc  -- "Invalid queue element", exit(EXIT_FAILURE)

pub record System : Type 0 where
  pub queue : Queue
  pub producer : ProducerPc
  pub snd_i : ℕ
  pub snd_retry : ℕ
  pub consumer : ConsumerPc
  pub rcv_i : ℕ
  pub rcv_retry : ℕ

-- The enqueue returned false: `retry++`, and the do-while goes round.
abbrev pub enqueue_failed : System → System
enqueue_failed s = record s { producer = ProducerPc.call; snd_retry = next_retry s.snd_retry }

abbrev pub dequeue_failed : System → System
dequeue_failed s = record s { consumer = ConsumerPc.call; rcv_retry = next_retry s.rcv_retry }

-- One step of `thread_producer` with the enqueue that the build selects.
unfoldable pub producer_at : Config → System → ProducerPc → System
producer_at c s ProducerPc.call =
    if ltb s.snd_i c.num_iterations
    then if c.simple
      then record s { producer = ProducerPc.have_head s.queue.head }
      else if sub32 s.queue.tail s.queue.cached_head == s.queue.size
      then record s { producer = ProducerPc.stale s.queue.tail }
      else record s { producer = ProducerPc.writing s.queue.tail }
    else s
producer_at c s (ProducerPc.have_head head) =
    if sub32 s.queue.tail head == s.queue.size
    then enqueue_failed s
    else record s { producer = ProducerPc.writing s.queue.tail }
producer_at c s (ProducerPc.stale tail) =
    let s' : System = record s { queue = record (s.queue) { cached_head = s.queue.head } } in
    if sub32 tail s.queue.head == s.queue.size
    then enqueue_failed s'
    else record s' { producer = ProducerPc.writing tail }
producer_at c s (ProducerPc.writing tail) = record s {
  queue = store_elem s.queue tail s.snd_i;
  producer = ProducerPc.publish tail;
}
producer_at c s (ProducerPc.publish tail) = record s {
  queue = record (s.queue) { tail = u32 (tail + 1) };
  producer = ProducerPc.call;
  snd_i = u64 (s.snd_i + 1);
  snd_retry = 0;
}

unfoldable pub thread_producer : Config → System → System
unfolding producer_at
thread_producer c s = producer_at c s s.producer

-- One step of `thread_consumer` with the dequeue that the build selects.
unfoldable pub consumer_at : Config → System → ConsumerPc → System
consumer_at c s ConsumerPc.call =
    if ltb s.rcv_i c.num_iterations
    then if c.simple
      then record s { consumer = ConsumerPc.have_head s.queue.head }
      else if s.queue.cached_tail == s.queue.head
      then record s { consumer = ConsumerPc.have_head s.queue.head }
      else record s { consumer = ConsumerPc.reading s.queue.head }
    else s
consumer_at c s (ConsumerPc.have_head head) =
    let s' : System =
      if c.simple
      then s
      else record s { queue = record (s.queue) { cached_tail = s.queue.tail } } in
    if s.queue.tail == head
    then dequeue_failed s'
    else record s' { consumer = ConsumerPc.reading head }
consumer_at c s (ConsumerPc.reading head) = record s {
  consumer = ConsumerPc.publish head (load_elem s.queue head);
}
consumer_at c s (ConsumerPc.publish head elem) =
    let s' : System = record s { queue = record (s.queue) { head = u32 (head + 1) } } in
    if elem == s.rcv_i
    then record s' { consumer = ConsumerPc.call; rcv_i = u64 (s.rcv_i + 1); rcv_retry = 0 }
    else record s' { consumer = ConsumerPc.mismatch }
consumer_at c s ConsumerPc.mismatch = s

unfoldable pub thread_consumer : Config → System → System
unfolding consumer_at
thread_consumer c s = consumer_at c s s.consumer

pub data Thread : Type 0 where
  producer_turn consumer_turn : Thread

unfoldable pub step : Config → Thread → System → System
unfolding thread_producer thread_consumer
step c producer_turn s = thread_producer c s
step c consumer_turn s = thread_consumer c s

-- The threads take turns in any order; a list of turns is a schedule.
unfoldable pub run : Config → List Thread → System → System
unfolding step
run c [] s = s
run c (t ∷ ts) s = run c ts (step c t s)

-- `main` once both threads are created, over the queue that it initialised.
abbrev pub start : Queue → System
start queue = record {
  queue = queue;
  producer = ProducerPc.call;
  snd_i = 0;
  snd_retry = 0;
  consumer = ConsumerPc.call;
  rcv_i = 0;
  rcv_retry = 0;
}
