-- ===== src/CircularBuffer/Invariant/Slots.antt =====
-- The indices of the ring: where the element with number `i` lies, and when two numbers share it.
use networking_howto.Prelude.{ℕ, ◌+◌, ◌-◌, ◌%◌, ◌^◌, ◌≤◌, ◌<◌, bit_and, ◌≡◌, arith, u32, sub32, ◌∙◌}
pub use networking_howto.Prelude.Bits.{slot_ne}
use networking_howto.Prelude.Bits.{bit_and-mask, mod_pow_mod, pow-pos, pow_mono}

-- What the queue needs of its size: the mask finds the slot also after the 32-bit wrap.
pub record IsSize (m : ℕ) : Type 0 where
  pub pos : 0 < m
  pub small : m ≤ 2 ^ 31
  pub masked : (i : ℕ) → bit_and (u32 i) (m - 1) ≡ i % m

pub pow-IsSize : (k : ℕ) → k ≤ 31 → IsSize (2 ^ k)
pow-IsSize k h = record {
  pos = pow-pos k;
  small = pow_mono k 31 h;
  masked = λ i. bit_and-mask k (u32 i) ∙ mod_pow_mod 32 k i (omega arith);
}

pub distance : (m r s : ℕ) → m ≤ 2 ^ 31 → r ≤ s → s ≤ r + m → sub32 (u32 s) (u32 r) ≡ s - r
distance m r s h p q = omega arith
