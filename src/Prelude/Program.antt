-- ===== src/Prelude/Program.antt =====
-- C functions that may end the program: over a world, with `exit(EXIT_FAILURE)` as an outcome.
use mathlib.Core.Bool.{Bool, true, false}
use mathlib.Core.Option.{Option, none, some}

pub data Outcome (W A : Type 0) : Type 0 where
  done : A → W → Outcome W A
  exit_failure : W → Outcome W A

abbrev pub M : Type 0 → Type 0 → Type 0
M W A = W → Outcome W A

infixl 5 ◌>>=◌ ◌>>◌
abbrev pub ◌>>=◌ : {W A B : Type 0} → M W A → (A → M W B) → M W B
◌>>=◌ m f w = elim (m w) [ done a w' ↦ f a w' | exit_failure w' ↦ exit_failure w' ]

abbrev pub ◌>>◌ : {W B : Type 0} → M W (Unit {0}) → M W B → M W B
m >> k = m >>= λ _. k

abbrev pub pure : {W A : Type 0} → A → M W A
pure a w = done a w

abbrev pub exit : {W A : Type 0} → M W A
exit w = exit_failure w

-- A system call that cannot end the program.
abbrev pub call : {W A : Type 0} → (W → A × W) → M W A
call f w = let (a, w') = f w in done a w'

-- `if (call() == -1) { fprintf(...); exit(EXIT_FAILURE); }`
abbrev pub or_exit : {W : Type 0} → (W → Bool × W) → M W (Unit {0})
or_exit f w = let (ok, w') = f w in elim ok [ true ↦ done tt w' | false ↦ exit_failure w' ]

-- The same for a call that returns a value.
abbrev pub value_or_exit : {W A : Type 0} → (W → Option A × W) → M W A
value_or_exit f w = let (r, w') = f w in elim r [ some a ↦ done a w' | none ↦ exit_failure w' ]
