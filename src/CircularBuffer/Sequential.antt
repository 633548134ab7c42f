-- ===== src/CircularBuffer/Sequential.antt =====
-- The four queue functions of circular-buffer.c, called one at a time, against a bounded FIFO.
use networking_howto.Prelude.{
  ℕ, zero, suc, ◌+◌, ◌-◌, ◌%◌, ◌≤◌, ◌<◌, ◌≡◌, Bool, true, false, Option, none, some, List, [], ◌∷◌,
  ◌++◌, length, get_or, set, get_or-set_self, get_or-set_ne, length-set, arith, refl, sym, ap, ◌∙◌,
  u32, sub32, if◌then◌else◌, ◌==◌,
}
use native.Mathlib.Nat.{mod-lt}
use mathlib.Core.Path.{ap₂}
use networking_howto.CircularBuffer.{Queue, slot, load_elem, put, get}
use networking_howto.CircularBuffer.Invariant.{IsSize, slot_ne, distance, OldHead, OldTail}

-- The specification: a list of at most `cap` elements, the oldest first.
unfoldable pub push : ℕ → List ℕ → ℕ → List ℕ × Bool
push cap q x = if length q == cap then (q, false) else (q ++ (x ∷ []), true)

unfoldable pub pop : List ℕ → List ℕ × Option ℕ
pop [] = ([], none)
pop (x ∷ q) = (q, some x)

-- The `n` elements from the head on.
elems_from : Queue → ℕ → ℕ → List ℕ
elems_from queue head zero = []
elems_from queue head (suc n) = load_elem queue head ∷ elems_from queue (u32 (head + 1)) n

unfoldable pub contents : Queue → List ℕ
unfolding elems_from
contents queue = elems_from queue queue.head (sub32 queue.tail queue.head)

-- The same elements by their numbers.
elems : List ℕ → ℕ → ℕ → ℕ → List ℕ
elems buf m r zero = []
elems buf m r (suc n) = get_or buf (r % m) 0 ∷ elems buf m (r + 1) n

-- A queue through which `rcv` elements have gone, of `snd` that it has accepted.
pub record Numbered (m rcv snd : ℕ) (queue : Queue) : Type 0 where
  pub valid : IsSize m
  pub sized : queue.size ≡ m
  pub room : length queue.buf ≡ m
  pub head_is : queue.head ≡ u32 rcv
  pub tail_is : queue.tail ≡ u32 snd
  pub taken : rcv ≤ snd
  pub fits : snd ≤ rcv + m

-- A queue after any number of calls of the simple functions.
pub record IsQueue (m : ℕ) (queue : Queue) : Type 0 where
  pub rcv : ℕ
  pub snd : ℕ
  pub numbers : Numbered m rcv snd queue

-- A queue after any number of calls of the functions that use the caches: both caches hold values
-- that the fields had at some time.
pub record IsCached (m : ℕ) (queue : Queue) : Type 0 where
  pub rcv : ℕ
  pub snd : ℕ
  pub numbers : Numbered m rcv snd queue
  pub old_head : OldHead m rcv snd queue.cached_head
  pub old_tail : OldTail rcv snd queue.cached_tail

length-elems : (buf : List ℕ) (m r n : ℕ) → length (elems buf m r n) ≡ n
unfolding elems
length-elems buf m r zero = refl
length-elems buf m r (suc n) = ap suc (length-elems buf m (r + 1) n)

-- Writing just past the elements adds one at the end.
elems-push :
    (buf : List ℕ) (m r n i x : ℕ)
    → 0 < m
    → length buf ≡ m
    → n < m
    → i ≡ r + n
    → elems (set buf (i % m) x) m r (suc n) ≡ elems buf m r n ++ (x ∷ [])
unfolding elems
elems-push buf m r zero i x pos room h e =
    let same : i ≡ r = omega arith in
    rw same (ap (λ v. v ∷ []) (get_or-set_self buf (r % m) x 0 (omega (arith, mod-lt r pos))))
elems-push buf m r (suc n) i x pos room h e =
    ap₂ ◌∷◌
      (get_or-set_ne buf (i % m) (r % m) x 0
        (λ same. slot_ne m r i pos (omega arith) (omega arith) (sym same)))
      (elems-push buf m (r + 1) n i x pos room (omega arith) (omega arith))

elems_from-elems :
    (m : ℕ) (queue : Queue)
    → IsSize m
    → queue.size ≡ m
    → (r n : ℕ) → elems_from queue (u32 r) n ≡ elems queue.buf m r n
unfolding elems_from elems
elems_from-elems m queue valid sized r zero = refl
elems_from-elems m queue valid sized r (suc n) =
    let next : u32 (u32 r + 1) ≡ u32 (r + 1) = omega arith in
    ap₂ ◌∷◌ (rw (sized, valid.masked r)) (rw next (elems_from-elems m queue valid sized (r + 1) n))

-- The contents by the numbers of the elements.
contents_lem :
    (m rcv snd : ℕ) (queue : Queue)
    → IsSize m
    → queue.size ≡ m
    → queue.head ≡ u32 rcv
    → queue.tail ≡ u32 snd
    → rcv ≤ snd
    → snd ≤ rcv + m
    → contents queue ≡ elems queue.buf m rcv (snd - rcv)
unfolding contents
contents_lem m rcv snd queue valid sized h t taken fits =
    simp (h, t, distance m rcv snd valid.small taken fits)
      (elems_from-elems m queue valid sized rcv (snd - rcv))

module _ {m rcv snd : ℕ} {queue : Queue} (q : Numbered m rcv snd queue) where
  open q use {valid, sized, room, head_is, tail_is, taken, fits}

  contents-elems : contents queue ≡ elems queue.buf m rcv (snd - rcv)
  contents-elems = contents_lem m rcv snd queue valid sized head_is tail_is taken fits

  pub length-contents : length (contents queue) ≡ snd - rcv
  length-contents = rw contents-elems (length-elems queue.buf m rcv (snd - rcv))

  -- The end of both enqueues keeps the queue in order, and adds the element at the end.
  pub put-Numbered : (x : ℕ) → snd < rcv + m → Numbered m rcv (snd + 1) (put queue queue.tail x)
  put-Numbered x more = record {
    valid = valid;
    sized = sized;
    room = length-set queue.buf (slot queue queue.tail) x ∙ room;
    head_is = head_is;
    tail_is = omega arith;
    taken = omega arith;
    fits = omega arith;
  }

  -- The end of both dequeues keeps the queue in order, and takes the first element.
  pub get-Numbered : rcv < snd → Numbered m (rcv + 1) snd (get queue queue.head)
  get-Numbered more = record {
    valid = valid;
    sized = sized;
    room = room;
    head_is = omega arith;
    tail_is = tail_is;
    taken = omega arith;
    fits = omega arith;
  }

module _ {m rcv snd : ℕ} {queue : Queue} (q : Numbered m rcv snd queue) where
  open q use {valid, sized, room, head_is, tail_is, taken, fits}

  pub contents-put :
      (x : ℕ) → snd < rcv + m → contents (put queue queue.tail x) ≡ contents queue ++ (x ∷ [])
  contents-put x more =
      contents_lem m rcv (snd + 1) (put queue queue.tail x) valid sized head_is (omega arith)
        (omega arith) (omega arith)
      ∙ rw (contents-elems q, count, at)
          (elems-push queue.buf m rcv (snd - rcv) snd x valid.pos room (omega arith) (omega arith))
    where
      count : snd + 1 - rcv ≡ suc (snd - rcv)
      count = omega arith

      at : slot queue queue.tail ≡ snd % m
      at = rw (tail_is, sized) (valid.masked snd)

  pub contents-get :
      rcv < snd → contents queue ≡ load_elem queue queue.head ∷ contents (get queue queue.head)
  unfolding elems
  contents-get more =
      contents-elems q
      ∙ rw (count, ← at)
          (ap (λ l. load_elem queue queue.head ∷ l)
            (sym (
              contents_lem m (rcv + 1) snd (get queue queue.head) valid sized (omega arith) tail_is
                (omega arith) (omega arith))))
    where
      count : snd - rcv ≡ suc (snd - (rcv + 1))
      count = omega arith

      at : slot queue queue.head ≡ rcv % m
      at = rw (head_is, sized) (valid.masked rcv)

  -- The caches do not show.
  pub contents_of_caches :
      (h t : ℕ) → contents (record queue { cached_head = h; cached_tail = t }) ≡ contents queue
  contents_of_caches h t =
      contents_lem m rcv snd (record queue { cached_head = h; cached_tail = t }) valid sized head_is
        tail_is taken fits
      ∙ sym (contents-elems q)

  pub caches-Numbered :
      (h t : ℕ) → Numbered m rcv snd (record queue { cached_head = h; cached_tail = t })
  caches-Numbered h t = record {
    valid = valid;
    sized = sized;
    room = room;
    head_is = head_is;
    tail_is = tail_is;
    taken = taken;
    fits = fits;
  }
