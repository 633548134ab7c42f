-- ===== src/CircularBuffer/Invariant/Caches.antt =====
-- What a head or a tail that was read at some time still says later.
use networking_howto.Prelude.{ℕ, ◌+◌, ◌<◌, ◌≡◌, arith, false, ◌==◌, u32, sub32}
use networking_howto.CircularBuffer.Invariant.Slots.{IsSize, distance}
use networking_howto.CircularBuffer.Invariant.Defs.{OldHead, OldTail}

pub OldHead-later : {m rcv snd head : ℕ} → OldHead m rcv snd head → OldHead m (rcv + 1) snd head
OldHead-later h = record {
  number = h.number;
  is_number = h.is_number;
  not_after = omega (arith, h.not_after);
  reaches = h.reaches;
}

pub OldTail-later : {rcv snd tail : ℕ} → OldTail rcv snd tail → OldTail rcv (snd + 1) tail
OldTail-later t = record {
  number = t.number;
  is_number = t.is_number;
  not_before = t.not_before;
  not_after = omega (arith, t.not_after);
}

-- A queue that is not full by an old head has room, and the head stays good for one more element.
pub room_by :
    {m rcv snd tail head : ℕ}
    → IsSize m
    → OldHead m rcv snd head
    → tail ≡ u32 snd
    → (sub32 tail head == m) ≡ false
    → (snd < rcv + m) × OldHead m rcv (snd + 1) head
room_by {m} {rcv} {snd} {tail} {head} valid old e full = (
  omega (arith, room_left),
  record {
    number = old.number;
    is_number = old.is_number;
    not_after = old.not_after;
    reaches = omega (arith, room_left);
  },
)
  where
    room_left : snd < old.number + m
    room_left = ground (arith, distance m old.number snd, valid.small, old.not_after, old.reaches)

-- A queue that is not empty by an old tail has an element.
pub elem_by :
    {rcv snd tail head : ℕ}
    → OldTail rcv snd tail
    → head ≡ u32 rcv
    → (tail == head) ≡ false
    → (rcv < snd) × OldTail (rcv + 1) snd tail
elem_by {rcv} {snd} {tail} {head} old e apart = (
  omega (arith, there, old.not_after),
  record {
    number = old.number;
    is_number = old.is_number;
    not_before = omega (arith, there);
    not_after = old.not_after;
  },
)
  where
    there : rcv < old.number
    there = ground (arith, old.not_before, old.is_number)
