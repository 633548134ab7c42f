-- ===== src/CircularBuffer/Invariant.antt =====
-- What holds of the queue and of both threads of circular-buffer.c at every moment. The threads'
-- counters `snd_i` and `rcv_i` number the elements, and the queue's `tail` and `head` are these
-- numbers modulo 2^32.
mod Slots
mod Defs
mod Caches
mod Produce
mod Consume
pub use Slots.*
pub use Defs.*
pub use Caches.*
use Produce.{thread_producer-Inv}
use Consume.{thread_consumer-Inv}
use networking_howto.Prelude.{
  ℕ, ◌-◌, ◌≤◌, ◌<◌, ◌≡◌, ◌^◌, List, [], ◌∷◌, Option, some, none, length, arith, bit_and, zero, suc,
  Bool-cases, inl, inr, ◌==◌, ◌||◌, not, true, false, refl, ==_iff, ltb, dec_lt, Option-cases,
  subst, sym, ◌↔◌,
}
use networking_howto.Prelude.Bits.{pow_of_pred_and, pow_mono, pred_and_pow, pow-pos}
use networking_howto.CircularBuffer.{Queue, queue_init}
use networking_howto.CircularBuffer.Threads.{
  Config, System, Thread, producer_turn, consumer_turn, step, run, start,
}

-- What the documentation says of `calloc`: if it returns at all, the array has `count` elements.
abbrev pub CallocWorks : (ℕ → Option (List ℕ)) → Type 0
CallocWorks calloc = (size : ℕ) (zeroed : List ℕ) → calloc size ≡ some zeroed → length zeroed ≡ size

-- What `queue_init` builds.
pub record Fresh (size : ℕ) (queue : Queue) : Type 0 where
  pub power : (k : ℕ) × (size ≡ 2 ^ k)
  pub sized : queue.size ≡ size
  pub room : length queue.buf ≡ size
  pub zeros :
      (queue.cached_head ≡ 0) × (queue.cached_tail ≡ 0) × (queue.head ≡ 0) × (queue.tail ≡ 0)

-- The guard of `queue_init` lets exactly the powers of two pass.
guard-pow :
    (size : ℕ)
    → (size == 0 || not (bit_and (size - 1) size == 0)) ≡ false
    → (k : ℕ) × (size ≡ 2 ^ k)
guard-pow size h = pow_of_pred_and size (ground arith) (ground arith)

pow-guard : (k : ℕ) → (2 ^ k == 0 || not (bit_and (2 ^ k - 1) (2 ^ k) == 0)) ≡ false
pow-guard k = rw (pred_and_pow k) (ground (arith, pow-pos k))

accepted :
    (calloc : ℕ → Option (List ℕ)) (size : ℕ) (queue : Queue)
    → queue_init calloc size ≡ some queue
    → ((k : ℕ) × (size ≡ 2 ^ k)) × ((zeroed : List ℕ) × (calloc size ≡ some zeroed))
unfolding queue_init
accepted calloc size queue e = elim (Bool-cases (size == 0 || not (bit_and (size - 1) size == 0))) [
  | inl bad ↦ ground (arith, bad)
  | inr good ↦ elim (Option-cases (calloc size)) [
    | inl failed ↦ ground (arith, good, failed)
    | inr c ↦ (guard-pow size good, c)
  ]
]

accepts :
    (calloc : ℕ → Option (List ℕ)) (size k : ℕ) (zeroed : List ℕ)
    → size ≡ 2 ^ k
    → calloc size ≡ some zeroed
    → (queue : Queue) × (queue_init calloc size ≡ some queue)
unfolding queue_init
accepts calloc size k zeroed p c = (
  record { buf = zeroed; size = size; cached_head = 0; cached_tail = 0; head = 0; tail = 0 },
  rw (size_guard, c) refl,
)
  where
    size_guard : (size == 0 || not (bit_and (size - 1) size == 0)) ≡ false
    size_guard = rw p (pow-guard k)

-- `queue_init` succeeds exactly when the size is a power of two and the allocation succeeds.
pub queue_init_iff :
    (calloc : ℕ → Option (List ℕ)) (size : ℕ)
    → ((queue : Queue) × (queue_init calloc size ≡ some queue))
      ↔ (((k : ℕ) × (size ≡ 2 ^ k)) × ((zeroed : List ℕ) × (calloc size ≡ some zeroed)))
queue_init_iff calloc size = (
  λ (queue, e). accepted calloc size queue e,
  λ ((k, p), (zeroed, c)). accepts calloc size k zeroed p c,
)

pub queue_init-Fresh :
    (calloc : ℕ → Option (List ℕ)) (size : ℕ) (queue : Queue)
    → CallocWorks calloc
    → queue_init calloc size ≡ some queue
    → Fresh size queue
unfolding queue_init
queue_init-Fresh calloc size queue works e =
    elim (Bool-cases (size == 0 || not (bit_and (size - 1) size == 0))) [
      | inl bad ↦ ground (arith, bad)
      | inr good ↦ elim (Option-cases (calloc size)) [
        | inl failed ↦ ground (arith, good, failed)
        | inr (zeroed, c) ↦
            let p = guard-pow size good in
            let l = works size zeroed c in
            record {
              power = p;
              sized = ground (arith, good, c);
              room = ground (arith, good, c, l);
              zeros = ground (arith, good, c);
            }
      ]
    ]

exponent_small : (k : ℕ) → 2 ^ k < 2 ^ 32 → k ≤ 31
exponent_small k h = elim (dec_lt k 32) [
  | yes p ↦ omega arith
  | no q ↦ absurd (omega (arith, pow_mono 32 k (omega arith)))
]

pub queue_init-IsSize : {size : ℕ} → size < 2 ^ 32 → (k : ℕ) × (size ≡ 2 ^ k) → IsSize size
queue_init-IsSize small (k, e) = rw e (pow-IsSize k (exponent_small k (rw e at small)))

pub Inv-start :
    (c : Config) {size : ℕ} {queue : Queue}
    → size < 2 ^ 32
    → c.num_iterations < 2 ^ 64
    → Fresh size queue
    → Inv c size (start queue)
Inv-start c {size} small few f = record {
  valid = queue_init-IsSize small f.power;
  few = few;
  sized = f.sized;
  room = f.room;
  head_is = f.zeros.2;
  tail_is = f.zeros.3;
  taken = omega arith;
  fits = omega arith;
  sent = omega arith;
  old_head = λ _. record {
    number = 0;
    is_number = f.zeros.0;
    not_after = omega arith;
    reaches = omega arith;
  };
  old_tail = λ _. record {
    number = 0;
    is_number = f.zeros.1;
    not_before = omega arith;
    not_after = omega arith;
  };
  filled = λ j lo hi. absurd (omega arith);
  producer = tt;
  consumer = tt;
}

pub step-Inv : {c : Config} {m : ℕ} (t : Thread) {s : System} → Inv c m s → Inv c m (step c t s)
unfolding step
step-Inv producer_turn inv = thread_producer-Inv inv
step-Inv consumer_turn inv = thread_consumer-Inv inv

pub run-Inv :
    {c : Config} {m : ℕ} (ts : List Thread) {s : System} → Inv c m s → Inv c m (run c ts s)
unfolding run
run-Inv [] inv = inv
run-Inv (t ∷ ts) inv = run-Inv ts (step-Inv t inv)
