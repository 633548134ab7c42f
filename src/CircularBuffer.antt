-- ===== src/CircularBuffer.antt =====
-- 03_circular_buffer/circular-buffer.c: the bounded queue itself. A function that updates `*queue`
-- returns the new queue beside its result; what goes out through `uint64_t* elem` is an option.
pub mod Sequential
pub mod Refine
pub mod Threads
pub mod Invariant
pub mod Safety
mod Tests
use networking_howto.Prelude.{
  ℕ, ◌+◌, ◌-◌, bit_and, Bool, true, false, not, ◌||◌, Option, none, some, List, get_or, set,
  if◌then◌else◌, ◌==◌, u32, sub32,
}

-- `QUEUE`, without padding. `buf` is the array behind `data`.
pub record Queue : Type 0 where
  pub buf : List ℕ
  pub size : ℕ
  pub cached_head : ℕ
  pub cached_tail : ℕ
  pub head : ℕ
  pub tail : ℕ

-- `queue_init`: `none` is the exit with EXIT_FAILURE. `calloc` gives the zeroed array, or fails.
pub queue_init : (ℕ → Option (List ℕ)) → ℕ → Option Queue
queue_init calloc size =
    if size == 0 || not (bit_and (size - 1) size == 0) then none else elim (calloc size) [
      | none ↦ none
      | some zeroed ↦ some (record {
        buf = zeroed;
        size = size;
        cached_head = 0;
        cached_tail = 0;
        head = 0;
        tail = 0;
      })
    ]

-- The masked index of the element with number `i`. An access out of range reads 0 and writes
-- nothing; the invariant rules it out.
abbrev pub slot : Queue → ℕ → ℕ
slot queue i = bit_and i (queue.size - 1)

abbrev pub store_elem : Queue → ℕ → ℕ → Queue
store_elem queue tail elem = record queue { buf = set queue.buf (slot queue tail) elem }

abbrev pub load_elem : Queue → ℕ → ℕ
load_elem queue head = get_or queue.buf (slot queue head) 0

-- The write of the element and the publication of the new tail, the common end of both variants.
abbrev pub put : Queue → ℕ → ℕ → Queue
put queue tail elem = record (store_elem queue tail elem) { tail = u32 (tail + 1) }

abbrev pub get : Queue → ℕ → Queue
get queue head = record queue { head = u32 (head + 1) }

unfoldable pub queue_enqueue : Queue → ℕ → Queue × Bool
queue_enqueue queue elem =
    let tail = queue.tail in
    if sub32 tail queue.cached_head == queue.size
    then (let head = queue.head in
        let queue' : Queue = record queue { cached_head = head } in
        if sub32 tail head == queue.size then (queue', false) else (put queue' tail elem, true))
    else (put queue tail elem, true)

unfoldable pub queue_dequeue : Queue → Queue × Option ℕ
queue_dequeue queue =
    let head = queue.head in
    if queue.cached_tail == head
    then (let tail = queue.tail in
        let queue' : Queue = record queue { cached_tail = tail } in
        if tail == head then (queue', none) else (get queue' head, some (load_elem queue' head)))
    else (get queue head, some (load_elem queue head))

unfoldable pub queue_enqueue_simple : Queue → ℕ → Queue × Bool
queue_enqueue_simple queue elem =
    let head = queue.head in
    let tail = queue.tail in
    if sub32 tail head == queue.size then (queue, false) else (put queue tail elem, true)

unfoldable pub queue_dequeue_simple : Queue → Queue × Option ℕ
queue_dequeue_simple queue =
    let head = queue.head in
    let tail = queue.tail in
    if tail == head then (queue, none) else (get queue head, some (load_elem queue head))
