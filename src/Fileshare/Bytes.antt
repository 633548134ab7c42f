-- ===== src/Fileshare/Bytes.antt =====
-- The eight bytes of a `uint64_t`, and `htobe64` on a little-endian host.
use networking_howto.Prelude.{
  ℕ, zero, suc, ◌+◌, ◌*◌, ◌/◌, ◌%◌, ◌^◌, ◌<◌, ◌≡◌, List, [], ◌∷◌, length, arith, refl, ap, ◌∙◌,
}
use mathlib.Core.List.{reverse, reverse-reverse}

-- The object representation: the `k` low bytes, the least significant first.
abbrev pub le_bytes : ℕ → ℕ → List ℕ
le_bytes zero n = []
le_bytes (suc k) n = n % 256 ∷ le_bytes k (n / 256)

abbrev pub le_value : List ℕ → ℕ
le_value [] = 0
le_value (b ∷ bs) = b + 256 * le_value bs

unfoldable pub bytes_of_u64 : ℕ → List ℕ
bytes_of_u64 n = le_bytes 8 n

-- The byte swap that `htobe64` is on a little-endian host.
unfoldable pub htobe64 : ℕ → ℕ
htobe64 n = le_value (reverse (bytes_of_u64 n))

length-le_bytes : (k n : ℕ) → length (le_bytes k n) ≡ k
length-le_bytes zero n = refl
length-le_bytes (suc k) n = ap suc (length-le_bytes k (n / 256))

pub length-bytes_of_u64 : (n : ℕ) → length (bytes_of_u64 n) ≡ 8
unfolding bytes_of_u64
length-bytes_of_u64 n = length-le_bytes 8 n

-- A value that fits is its bytes.
pub le_value-bytes : (n : ℕ) → n < 2 ^ 64 → le_value (bytes_of_u64 n) ≡ n
unfolding bytes_of_u64
le_value-bytes n h = omega arith

abbrev AreBytes : List ℕ → Type 0
AreBytes [] = Unit
AreBytes (b ∷ bs) = (b < 256) × AreBytes bs

-- Bytes are the bytes of their value.
le_bytes-value : (bs : List ℕ) → AreBytes bs → le_bytes (length bs) (le_value bs) ≡ bs
le_bytes-value [] h = refl
le_bytes-value (b ∷ bs) h =
    let low : (b + 256 * le_value bs) % 256 ≡ b = omega arith in
    let high : (b + 256 * le_value bs) / 256 ≡ le_value bs = omega arith in
    rw (low, high) (ap (λ t. b ∷ t) (le_bytes-value bs h.1))

swapped-AreBytes : (n : ℕ) → AreBytes (reverse (bytes_of_u64 n))
unfolding bytes_of_u64
swapped-AreBytes n = omega arith

swap_bytes : (n : ℕ) → bytes_of_u64 (htobe64 n) ≡ reverse (bytes_of_u64 n)
unfolding htobe64 bytes_of_u64
swap_bytes n = le_bytes-value (reverse (bytes_of_u64 n)) (swapped-AreBytes n)

htobe64_lem : (n : ℕ) → htobe64 n ≡ le_value (reverse (bytes_of_u64 n))
unfolding htobe64
htobe64_lem n = refl

-- Swapping twice gives the value back.
pub htobe64-htobe64 : (n : ℕ) → n < 2 ^ 64 → htobe64 (htobe64 n) ≡ n
htobe64-htobe64 n h =
    htobe64_lem (htobe64 n)
    ∙ ap (λ l. le_value (reverse l)) (swap_bytes n)
    ∙ ap le_value (reverse-reverse (bytes_of_u64 n))
    ∙ le_value-bytes n h

htobe64-lt : (n : ℕ) → htobe64 n < 2 ^ 64
unfolding htobe64 bytes_of_u64
htobe64-lt n = omega arith

-- What `write` sends for a value is what `htobe64` of the received bytes reads.
pub htobe64-of_bytes : (n : ℕ) → n < 2 ^ 64 → htobe64 (le_value (bytes_of_u64 (htobe64 n))) ≡ n
htobe64-of_bytes n h = ap htobe64 (le_value-bytes (htobe64 n) (htobe64-lt n)) ∙ htobe64-htobe64 n h
