-- ===== src/Atomics/Tests.antt =====
-- Two threads of atomics.c with two rounds each.
use networking_howto.Prelude.{ℕ, zero, suc, ◌*◌, ◌<◌, ◌≡◌, List, [], ◌∷◌, u32, refl, arith}
use networking_howto.Locks.Counter.{AllBelow}
use networking_howto.Atomics.{count_once, count_all, zeroed}
use networking_howto.Atomics.Counter.{atomics_count}

abbrev turns : List ℕ
turns = 0 ∷ 1 ∷ 1 ∷ 0 ∷ 0 ∷ []

all_rounds : (u : ℕ) → u < 2 → (count_all 2 turns zeroed).i u ≡ 2
unfolding count_all count_once
all_rounds zero l = refl
all_rounds (suc zero) l = refl
all_rounds (suc (suc u)) l = absurd (omega (arith, l))

turns-AllBelow : AllBelow 2 turns
turns-AllBelow = omega arith

atomics_count_example : (count_all 2 turns zeroed).var ≡ u32 (2 * 2)
atomics_count_example = atomics_count 2 2 (omega arith) turns turns-AllBelow all_rounds
