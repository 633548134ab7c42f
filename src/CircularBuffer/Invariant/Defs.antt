-- ===== src/CircularBuffer/Invariant/Defs.antt =====
-- The invariant of the producer and the consumer. `m` is the size of the queue,
-- `rcv` and `snd` are the counters of the two threads.
use networking_howto.Prelude.{
  ℕ, ◌+◌, ◌%◌, ◌≤◌, ◌<◌, ◌≡◌, ◌^◌, List, length, get_or, u32, true, false,
}
use networking_howto.CircularBuffer.Threads.{Config, ProducerPc, ConsumerPc, System}
use networking_howto.CircularBuffer.Invariant.Slots.{IsSize}

-- A head that was read at some time: the number of an element that is no longer ahead.
pub record OldHead (m rcv snd head : ℕ) : Type 0 where
  pub number : ℕ
  pub is_number : head ≡ u32 number
  pub not_after : number ≤ rcv
  pub reaches : snd ≤ number + m

pub record OldTail (rcv snd tail : ℕ) : Type 0 where
  pub number : ℕ
  pub is_number : tail ≡ u32 number
  pub not_before : rcv ≤ number
  pub not_after : number ≤ snd

-- The caches are used only by the variant that is not simple.
abbrev pub IfCached : Config → Type 0 → Type 0
IfCached c P = c.simple ≡ false → P

-- There is room for one more element, by the cached head too.
abbrev pub HasRoom : (c : Config) (m rcv snd cached_head : ℕ) → Type 0
HasRoom c m rcv snd cached_head = (snd < rcv + m) × IfCached c (OldHead m rcv (snd + 1) cached_head)

-- What the locals of `thread_producer` say.
abbrev pub ProducerKnows :
    (c : Config) (m rcv snd : ℕ) (buf : List ℕ) (cached_head : ℕ) → ProducerPc → Type 0
ProducerKnows c m rcv snd buf ch ProducerPc.call = Unit
ProducerKnows c m rcv snd buf ch (ProducerPc.have_head head) =
    (c.simple ≡ true) × OldHead m rcv snd head × (snd < c.num_iterations)
ProducerKnows c m rcv snd buf ch (ProducerPc.stale tail) =
    (tail ≡ u32 snd) × (snd < c.num_iterations)
ProducerKnows c m rcv snd buf ch (ProducerPc.writing tail) =
    (tail ≡ u32 snd) × (snd < c.num_iterations) × HasRoom c m rcv snd ch
ProducerKnows c m rcv snd buf ch (ProducerPc.publish tail) =
    (tail ≡ u32 snd)
    × (snd < c.num_iterations)
    × HasRoom c m rcv snd ch
    × (get_or buf (snd % m) 0 ≡ snd)

-- There is an element to take, by the cached tail too.
abbrev pub HasElem : (c : Config) (rcv snd cached_tail : ℕ) → Type 0
HasElem c rcv snd cached_tail = (rcv < snd) × IfCached c (OldTail (rcv + 1) snd cached_tail)

-- What the locals of `thread_consumer` say. It never finds a wrong element.
abbrev pub ConsumerKnows : (c : Config) (rcv snd cached_tail : ℕ) → ConsumerPc → Type 0
ConsumerKnows c rcv snd ct ConsumerPc.call = Unit
ConsumerKnows c rcv snd ct (ConsumerPc.have_head head) = (head ≡ u32 rcv) × (rcv < c.num_iterations)
ConsumerKnows c rcv snd ct (ConsumerPc.reading head) =
    (head ≡ u32 rcv) × (rcv < c.num_iterations) × HasElem c rcv snd ct
ConsumerKnows c rcv snd ct (ConsumerPc.publish head elem) =
    (head ≡ u32 rcv) × (rcv < c.num_iterations) × HasElem c rcv snd ct × (elem ≡ rcv)
ConsumerKnows c rcv snd ct ConsumerPc.mismatch = ⊥

pub record Inv (c : Config) (m : ℕ) (s : System) : Type 0 where
  pub valid : IsSize m
  pub few : c.num_iterations < 2 ^ 64
  pub sized : s.queue.size ≡ m
  pub room : length s.queue.buf ≡ m
  pub head_is : s.queue.head ≡ u32 s.rcv_i
  pub tail_is : s.queue.tail ≡ u32 s.snd_i
  pub taken : s.rcv_i ≤ s.snd_i
  pub fits : s.snd_i ≤ s.rcv_i + m
  pub sent : s.snd_i ≤ c.num_iterations
  pub old_head : IfCached c (OldHead m s.rcv_i s.snd_i s.queue.cached_head)
  pub old_tail : IfCached c (OldTail s.rcv_i s.snd_i s.queue.cached_tail)
  pub filled : (j : ℕ) → s.rcv_i ≤ j → j < s.snd_i → get_or s.queue.buf (j % m) 0 ≡ j
  pub producer : ProducerKnows c m s.rcv_i s.snd_i s.queue.buf s.queue.cached_head s.producer
  pub consumer : ConsumerKnows c s.rcv_i s.snd_i s.queue.cached_tail s.consumer
