-- ===== src/Prelude/Bits.antt =====
-- The two bit tricks of the C code at every width: a mask of ones is a remainder, and
-- `(n - 1) & n` is zero exactly at the powers of two.
use Prim.Native.Nat.{
  ℕ, zero, suc, ◌+◌, ◌-◌, ◌*◌, ◌/◌, ◌%◌, ◌^◌, ◌≤◌, ◌<◌, min, bit_and, digits, bit_and-bitwise,
}
use mathlib.Core.Path.{◌≡◌, refl, sym, ap, ◌∙◌}
use native.Mathlib.Omega.{arith}
use native.Mathlib.Nat.{pow-suc, zero-add, div-add-mod, add-mul-mod_self_left}
use native.Mathlib.Decide.{ℕ_discrete, dec_lt}
use mathlib.Core.Logic.{◌≢◌}

-- Induction over the halves of a number, in `left` steps at most.
halves_within :
    (P : ℕ → Type 0) → P 0 → ((n : ℕ) → 0 < n → P (n / 2) → P n) → (left n : ℕ) → n ≤ left → P n
halves_within P base up left zero small = base
halves_within P base up zero (suc n) small = absurd (omega arith)
halves_within P base up (suc left) (suc n) small =
    up (suc n) (omega arith) (halves_within P base up left (suc n / 2) (omega arith))

by_halves : (P : ℕ → Type 0) → P 0 → ((n : ℕ) → 0 < n → P (n / 2) → P n) → (n : ℕ) → P n
by_halves P base up n = halves_within P base up n n (omega arith)

-- `bit_and` by its digits, with the number of digits looked at.
abbrev common : (left x y : ℕ) → ℕ
common left x y = digits (λ rest. zero) min left x y

-- One digit more than enough changes nothing, and so neither do `extra` digits more.
common-suc : (left x y : ℕ) → x ≤ left → common (suc left) x y ≡ common left x y
common-suc zero zero y small = refl
common-suc (suc left) zero y small = refl
common-suc zero (suc x) y small = absurd (omega arith)
common-suc (suc left) (suc x) y small =
    let deeper = common-suc left (suc x / 2) (y / 2) (omega arith) in omega (arith, deeper)

common_more : (extra left x y : ℕ) → x ≤ left → common (extra + left) x y ≡ common left x y
common_more zero left x y small = ap (λ n. common n x y) (zero-add left)
common_more (suc extra) left x y small =
    let next : suc extra + left ≡ suc (extra + left) = omega arith in
    rw next (common-suc (extra + left) x y (omega arith) ∙ common_more extra left x y small)

common-bit_and : (left x y : ℕ) → x ≤ left → common left x y ≡ bit_and x y
common-bit_and left x y small =
    let parts : left ≡ (left - x) + x = omega arith in
    ap (λ n. common n x y) parts
    ∙ common_more (left - x) x x y (omega arith)
    ∙ sym (bit_and-bitwise x y)

-- The lowest digit, and the others.
pub bit_and-halves : (x y : ℕ) → bit_and x y ≡ bit_and (x / 2) (y / 2) * 2 + min (x % 2) (y % 2)
bit_and-halves x y =
    let enough = common-bit_and (suc x) x y (omega arith) in
    let rest = common-bit_and x (x / 2) (y / 2) (omega arith) in bit_digit x y enough rest
  where
    bit_digit :
        (x y : ℕ)
        → common (suc x) x y ≡ bit_and x y
        → common x (x / 2) (y / 2) ≡ bit_and (x / 2) (y / 2)
        → bit_and x y ≡ bit_and (x / 2) (y / 2) * 2 + min (x % 2) (y % 2)
    bit_digit zero y enough rest = omega (arith, enough, rest)
    bit_digit (suc x) y enough rest = omega (arith, enough, rest)

bit_and-zero : (x : ℕ) → bit_and x 0 ≡ 0
bit_and-zero =
    by_halves (λ x. bit_and x 0 ≡ 0) refl (λ x some half. omega (arith, bit_and-halves x 0, half))

bit_and_self : (x : ℕ) → bit_and x x ≡ x
bit_and_self =
    by_halves (λ x. bit_and x x ≡ x) refl (λ x some half. omega (arith, bit_and-halves x x, half))

zero-bit_and : (y : ℕ) → bit_and 0 y ≡ 0
zero-bit_and y = sym (common-bit_and 0 0 y (omega arith))

pub pow-pos : (k : ℕ) → 0 < 2 ^ k
pow-pos zero = omega arith
pow-pos (suc k) = omega (arith, pow-suc 2 k, pow-pos k)

-- The remainder by an even number, from its half.
mod_double : (a p : ℕ) → 0 < p → a % (2 * p) ≡ a / 2 % p * 2 + a % 2
mod_double a p h = grind arith

mask_double :
    (p a : ℕ) → 0 < p → bit_and (a / 2) (p - 1) ≡ a / 2 % p → bit_and a (2 * p - 1) ≡ a % (2 * p)
mask_double p a h ih = rw (bit_and-halves, halved) (omega (arith, ih, mod_double a p h))
  where
    halved : (2 * p - 1) / 2 ≡ p - 1
    halved = omega arith

-- `x & (2^k - 1)` is `x % 2^k`.
pub bit_and-mask : (k a : ℕ) → bit_and a (2 ^ k - 1) ≡ a % 2 ^ k
bit_and-mask zero a = omega (arith, bit_and-zero a)
bit_and-mask (suc k) a =
    let e : 2 ^ suc k ≡ 2 * 2 ^ k = omega (arith, pow-suc 2 k) in
    rw e (mask_double (2 ^ k) a (pow-pos k) (bit_and-mask k (a / 2)))

-- The test at an even number is the test at its half; at an odd one it leaves all but the last bit.
pred_and_even : (m : ℕ) → 0 < m → bit_and (2 * m - 1) (2 * m) ≡ bit_and (m - 1) m * 2
pred_and_even m h = rw (bit_and-halves, low, high) (omega arith)
  where
    low : (2 * m - 1) / 2 ≡ m - 1
    low = omega arith

    high : 2 * m / 2 ≡ m
    high = omega arith

pred_and_odd : (m : ℕ) → bit_and (2 * m) (2 * m + 1) ≡ m * 2
pred_and_odd m = rw (bit_and-halves, low, high, bit_and_self) (omega arith)
  where
    low : 2 * m / 2 ≡ m
    low = omega arith

    high : (2 * m + 1) / 2 ≡ m
    high = omega arith

-- `(2^k - 1) & 2^k` is zero.
pub pred_and_pow : (k : ℕ) → bit_and (2 ^ k - 1) (2 ^ k) ≡ 0
pred_and_pow zero = zero-bit_and 1
pred_and_pow (suc k) =
    let e : 2 ^ suc k ≡ 2 * 2 ^ k = omega (arith, pow-suc 2 k) in
    rw (e, pred_and_even (2 ^ k) (pow-pos k), pred_and_pow k)

even_half : (n : ℕ) → n % 2 ≡ 0 → n ≡ 2 * (n / 2)
even_half n h = omega arith

odd_half : (n : ℕ) → n % 2 ≡ 1 → n ≡ 2 * (n / 2) + 1
odd_half n h = omega arith

half_of_odd : (n m : ℕ) → n ≡ 2 * m + 1 → bit_and (n - 1) n ≡ 0 → m ≡ 0
half_of_odd n m o e =
    let l : 2 * m + 1 - 1 ≡ 2 * m = omega arith in
    let z : bit_and (2 * m + 1 - 1) (2 * m + 1) ≡ 0 = rw o at e in
    let y : bit_and (2 * m) (2 * m + 1) ≡ 0 = rw l at z in omega (arith, pred_and_odd m)

pow_of_pred_and_fuel : (f n : ℕ) → n ≤ f → 0 < n → bit_and (n - 1) n ≡ 0 → (k : ℕ) × (n ≡ 2 ^ k)
pow_of_pred_and_fuel zero n h p e = absurd (omega arith)
pow_of_pred_and_fuel (suc f) n h p e = elim (ℕ_discrete (n % 2) 0) [
  | yes even ↦
      let z = even_half n even in
      let (k, w) = pow_of_pred_and_fuel f (n / 2) (omega arith) (omega arith) (half_zero even) in
      (suc k, omega (arith, pow-suc 2 k))
  | no odd ↦ (0, omega (arith, single odd))
]
  where
    half_zero : n % 2 ≡ 0 → bit_and (n / 2 - 1) (n / 2) ≡ 0
    half_zero even =
        let z : bit_and (2 * (n / 2) - 1) (2 * (n / 2)) ≡ 0 = rw (← even_half n even) e in
        omega (arith, pred_and_even (n / 2) (omega arith))

    single : ¬ (n % 2 ≡ 0) → n ≡ 1
    single odd = omega (arith, half_of_odd n (n / 2) (omega arith) e)

-- A positive number passes the test only if it is a power of two.
pub pow_of_pred_and : (n : ℕ) → 0 < n → bit_and (n - 1) n ≡ 0 → (k : ℕ) × (n ≡ 2 ^ k)
pow_of_pred_and n = pow_of_pred_and_fuel n n (omega arith)

pub pow_mono : (a b : ℕ) → a ≤ b → 2 ^ a ≤ 2 ^ b
pow_mono a zero h = let e : a ≡ 0 = omega arith in rw e (omega arith)
pow_mono zero (suc b) h = pow-pos (suc b)
pow_mono (suc a) (suc b) h = omega (arith, pow-suc 2 a, pow-suc 2 b, pow_mono a b (omega arith))

mod_split : (a p q : ℕ) → 0 < p → 0 < q → a % (p * q) % p ≡ a % p
mod_split a p q hp hq =
    let d : a % (p * q) + p * (q * (a / (p * q))) ≡ a = omega (arith, div-add-mod a (p * q)) in
    sym (add-mul-mod_self_left (a % (p * q)) p (q * (a / (p * q)))) ∙ ap (λ t. t % p) d

pub pow_split : (d k : ℕ) → 2 ^ (d + k) ≡ 2 ^ k * 2 ^ d
pow_split zero k = rw zero-add (omega arith)
pow_split (suc d) k =
    let e : suc d + k ≡ suc (d + k) = omega arith in
    rw (e, pow-suc, pow-suc, pow_split d k) (omega arith)

-- Wrapping at a larger power of two does not change a smaller remainder.
pub mod_pow_mod : (w k a : ℕ) → k ≤ w → a % 2 ^ w % 2 ^ k ≡ a % 2 ^ k
mod_pow_mod w k a h =
    let e : w ≡ (w - k) + k = omega arith in
    rw (e, pow_split (w - k) k) (mod_split a (2 ^ k) (2 ^ (w - k)) (pow-pos k) (pow-pos (w - k)))

-- Two numbers less than `m` apart have different remainders.
pub slot_ne : (m i j : ℕ) → 0 < m → i < j → j < i + m → i % m ≢ j % m
slot_ne m i j h p q e = elim (dec_lt (i / m) (j / m)) [
  | yes below ↦ grind (arith, div-add-mod i m, div-add-mod j m)
  | no above ↦ grind (arith, div-add-mod i m, div-add-mod j m)
]
