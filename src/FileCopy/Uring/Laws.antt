-- ===== src/FileCopy/Uring/Laws.antt =====
-- What the documentation of io_uring says, as far as 04_async_io/io-uring-cp.c relies on it.
use networking_howto.Prelude.{update, ℕ, ◌+◌, ◌≤◌, ◌<◌, ◌≡◌, ◌≢◌, ◌⊎◌, Option, none, some}
use networking_howto.Fileshare.Posix.{Posix, Fd}
use networking_howto.FileCopy.Uring.{Cqe, Ring, queue_size}

-- A request that was prepared and whose completion no peek has found yet.
pub data Request : Type 0 where
  reading : (fd : Fd) (nbytes offset buf_index : ℕ) → Request
  writing : (fd : Fd) (nbytes offset buf_index : ℕ) → Request

abbrev pub ReadsInto : (buf_index : ℕ) → Option Request → Type 0
ReadsInto b none = ⊥
ReadsInto b (some (reading fd nbytes offset buf_index)) = buf_index ≡ b
ReadsInto b (some (writing fd nbytes offset buf_index)) = ⊥

abbrev pub WritesAt : (i : ℕ) → Option Request → Type 0
WritesAt i none = ⊥
WritesAt i (some (reading fd nbytes offset buf_index)) = ⊥
WritesAt i (some (writing fd nbytes offset buf_index)) = (offset ≤ i) × (i < offset + nbytes)

-- Two requests that may be in flight together: they use different buffers, and write different bytes.
abbrev pub Apart : Option Request → Request → Type 0
Apart none r = Unit
Apart (some (writing fd n o b)) (writing fd' n' o' b') = (b ≢ b') × ((o + n ≤ o') ⊎ (o' + n' ≤ o))
Apart (some (writing fd n o b)) (reading fd' n' o' b') = b ≢ b'
Apart (some (reading fd n o b)) (writing fd' n' o' b') = b ≢ b'
Apart (some (reading fd n o b)) (reading fd' n' o' b') = b ≢ b'

-- While the program makes a call, only the requests in flight change buffers and the file.
abbrev pub Steady :
    {W : Type 0} (in_flight : W → ℕ → Option Request) (content : W → ℕ → ℕ) (buffer : W → ℕ → ℕ → ℕ)
    → W
    → W
    → Type 0
Steady in_flight content buffer w v =
    ((b j : ℕ) → ((t : ℕ) → ¬ ReadsInto b (in_flight w t)) → buffer v b j ≡ buffer w b j)
    × ((i : ℕ) → ((t : ℕ) → ¬ WritesAt i (in_flight w t)) → content v i ≡ content w i)

-- A peek finds a completion that no peek has found before.
abbrev pub Fresh :
    {W : Type 0} (unseen : W → Option Cqe) (peek : W → Option Cqe × W) → W → Cqe → Type 0
Fresh unseen peek w c = ((peek w).0 ≡ some c) × (unseen w ≡ none)

-- `source` are the bytes of the file `src`, which nobody changes, and `content w` those of the file
-- `dst`, which nobody else writes.
pub record RingLaws (os : Posix) (ring : Ring os) (src dst : Fd) (source : ℕ → ℕ) : Type 0 where
  pub in_flight : os.World → (user_data : ℕ) → Option Request
  pub content : os.World → ℕ → ℕ
  pub buffer : os.World → (buf_index : ℕ) → ℕ → ℕ
  -- The completion at the head of the queue that a peek has found, until `io_uring_cqe_seen` is called.
  pub unseen : os.World → Option Cqe
  -- A request is queued under a number below the size of the queue that no request in flight has.
  pub prep_read :
      (fd : Fd) (n o b t : ℕ) (w : os.World)
      → t < queue_size
      → in_flight w t ≡ none
      → ((u : ℕ) → u ≢ t → Apart (in_flight w u) (reading fd n o b))
      → (in_flight (ring.prep_read_fixed fd n o b t w)
          ≡ update (in_flight w) t (some (reading fd n o b)))
        × Steady in_flight content buffer w (ring.prep_read_fixed fd n o b t w)
  pub prep_write :
      (fd : Fd) (n o b t : ℕ) (w : os.World)
      → t < queue_size
      → in_flight w t ≡ none
      → ((u : ℕ) → u ≢ t → Apart (in_flight w u) (writing fd n o b))
      → (in_flight (ring.prep_write_fixed fd n o b t w)
          ≡ update (in_flight w) t (some (writing fd n o b)))
        × Steady in_flight content buffer w (ring.prep_write_fixed fd n o b t w)
  pub submit_keeps :
      (n : ℕ) (w : os.World)
      → (in_flight (ring.submit_and_wait n w) ≡ in_flight w)
        × Steady in_flight content buffer w (ring.submit_and_wait n w)
  -- The call waits for a completion, so a peek behind it finds one if there are requests.
  pub submit_waits :
      (t : ℕ) (w : os.World)
      → t < queue_size
      → in_flight w t ≢ none
      → (ring.peek_cqe (ring.submit_and_wait 1 w)).0 ≢ none
  -- Only `io_uring_cqe_seen` takes a completion from the queue.
  pub prep_read_unseen :
      (fd : Fd) (n o b t : ℕ) (w : os.World) → unseen (ring.prep_read_fixed fd n o b t w) ≡ unseen w
  pub prep_write_unseen :
      (fd : Fd) (n o b t : ℕ) (w : os.World)
      → unseen (ring.prep_write_fixed fd n o b t w) ≡ unseen w
  pub submit_unseen : (n : ℕ) (w : os.World) → unseen (ring.submit_and_wait n w) ≡ unseen w
  pub seen_some :
      (c : Cqe) (w : os.World)
      → unseen w ≡ some c
      → (unseen (ring.cqe_seen (some c) w) ≡ none)
        × (in_flight (ring.cqe_seen (some c) w) ≡ in_flight w)
        × Steady in_flight content buffer w (ring.cqe_seen (some c) w)
  -- Given a null pointer it does nothing.
  pub seen_none :
      (w : os.World)
      → (unseen (ring.cqe_seen none w) ≡ unseen w)
        × (in_flight (ring.cqe_seen none w) ≡ in_flight w)
        × Steady in_flight content buffer w (ring.cqe_seen none w)
  -- A completion that is not marked as seen is found again.
  pub peek_again :
      (w : os.World) (c : Cqe)
      → unseen w ≡ some c
      → ((ring.peek_cqe w).0 ≡ some c)
        × (unseen (ring.peek_cqe w).1 ≡ some c)
        × (in_flight (ring.peek_cqe w).1 ≡ in_flight w)
        × Steady in_flight content buffer w (ring.peek_cqe w).1
  pub peek_none :
      (w : os.World)
      → (ring.peek_cqe w).0 ≡ none
      → (unseen (ring.peek_cqe w).1 ≡ none)
        × (in_flight (ring.peek_cqe w).1 ≡ in_flight w)
        × Steady in_flight content buffer w (ring.peek_cqe w).1
  -- When all that were found before have been marked as seen, a completion is that of a request in
  -- flight.
  pub peek_some :
      (w : os.World) (c : Cqe)
      → Fresh unseen ring.peek_cqe w c
      → (in_flight w c.user_data ≢ none)
        × (unseen (ring.peek_cqe w).1 ≡ some c)
        × (in_flight (ring.peek_cqe w).1 ≡ update (in_flight w) c.user_data none)
        × Steady in_flight content buffer w (ring.peek_cqe w).1
  -- The bytes that a completed read has put into its buffer, and a completed write into the file.
  pub read_done :
      (w : os.World) (c : Cqe) (n o b k : ℕ)
      → Fresh unseen ring.peek_cqe w c
      → in_flight w c.user_data ≡ some (reading src n o b)
      → c.res ≡ some k
      → (j : ℕ) → j < k
      → buffer (ring.peek_cqe w).1 b j ≡ source (o + j)
  pub write_done :
      (w : os.World) (c : Cqe) (n o b k : ℕ)
      → Fresh unseen ring.peek_cqe w c
      → in_flight w c.user_data ≡ some (writing dst n o b)
      → c.res ≡ some k
      → (j : ℕ) → j < k
      → content (ring.peek_cqe w).1 (o + j) ≡ buffer w b j

-- Transfers that do not fail are complete: a read up to the end of the file, of `size` bytes. (The code
-- does not look at the count of a completion.)
pub record FullTransfers (os : Posix) (ring : Ring os) (src dst : Fd) (source : ℕ → ℕ)
    (laws : RingLaws os ring src dst source) (size : ℕ) : Type 0 where
  pub full_read :
      (w : os.World) (c : Cqe) (n o b k : ℕ)
      → Fresh laws.unseen ring.peek_cqe w c
      → laws.in_flight w c.user_data ≡ some (reading src n o b)
      → c.res ≡ some k
      → (n ≤ k) ⊎ (size ≤ o + k)
  pub full_write :
      (w : os.World) (c : Cqe) (n o b k : ℕ)
      → Fresh laws.unseen ring.peek_cqe w c
      → laws.in_flight w c.user_data ≡ some (writing dst n o b)
      → c.res ≡ some k
      → n ≤ k
