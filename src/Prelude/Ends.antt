-- ===== src/Prelude/Ends.antt =====
-- What holds when a function that may end the program returns, and what holds when it exits.
use mathlib.Core.Bool.{Bool, true, false}
use mathlib.Core.Option.{Option, none, some}
use mathlib.Core.Path.{◌≡◌, refl}
use networking_howto.Prelude.Program.{Outcome, done, exit_failure, M, ◌>>=◌, or_exit, value_or_exit}

-- A return satisfies `P`, and an exit means `E`.
abbrev pub Ends : {W A : Type 0} (E : Type 0) (P : A → W → Type 0) → Outcome W A → Type 0
Ends E P (done a w) = P a w
Ends E P (exit_failure w) = E

module _ {W A B : Type 0} where
  -- `f` after an outcome.
  abbrev and_then : (A → M W B) → Outcome W A → Outcome W B
  and_then f (done a w) = f a w
  and_then f (exit_failure w) = exit_failure w

module _ {W A B : Type 0} (E : Type 0) (P : A → W → Type 0) (Q : B → W → Type 0) where
  and_then-Ends :
      (r : Outcome W A) (f : A → M W B)
      → Ends E P r
      → ((a : A) (w : W) → P a w → Ends E Q (f a w))
      → Ends E Q (and_then f r)
  and_then-Ends (done a w) f p next = next a w p
  and_then-Ends (exit_failure w) f p next = p

  -- The rule for a sequence of two parts.
  pub bind-Ends :
      (m : M W A) (f : A → M W B) (w : W)
      → Ends E P (m w)
      → ((a : A) (v : W) → P a v → Ends E Q (f a v))
      → Ends E Q ((m >>= f) w)
  bind-Ends m f w p next = and_then-Ends (m w) f p next

module _ {W A : Type 0} (E : Type 0) (P Q : A → W → Type 0) where
  pub weaken-Ends : (r : Outcome W A) → Ends E P r → ((a : A) (w : W) → P a w → Q a w) → Ends E Q r
  weaken-Ends (done a w) p next = next a w p
  weaken-Ends (exit_failure w) p next = p

module _ {W A : Type 0} (E : Type 0) (P Q : A → W → Type 0) where
  pub both-Ends : (r : Outcome W A) → Ends E P r → Ends E Q r → Ends E (λ a w. P a w × Q a w) r
  both-Ends (done a w) p q = (p, q)
  both-Ends (exit_failure w) p q = p

module _ {W A : Type 0} (E : Type 0) (P Q : A → W → Type 0) where
  -- What holds at the return, beside what is known of the exit.
  pub also-Ends : (r : Outcome W A) → Ends E P r → Ends Unit Q r → Ends E (λ a w. P a w × Q a w) r
  also-Ends (done a w) p q = (p, q)
  also-Ends (exit_failure w) p q = p

-- A call that ends the program unless it succeeds.
pub or_exit-Ends :
    {W : Type 0} (E : Type 0) (f : W → Bool × W) (w : W)
    → ((f w).0 ≡ false → E)
    → Ends E (λ a v. ((f w).0 ≡ true) × (v ≡ (f w).1)) (or_exit f w)
or_exit-Ends E f w fails = go (f w).0 (f w).1 fails
  where
    go :
        {W : Type 0} {E : Type 0} (ok : Bool) (v : W)
        → (ok ≡ false → E)
        → Ends E
            (λ a v'. (ok ≡ true) × (v' ≡ v))
            (elim ok as (λ b. Outcome W (Unit {0})) [ true ↦ done tt v | false ↦ exit_failure v ])
    go true v fails = (refl, refl)
    go false v fails = fails refl

pub value_or_exit-Ends :
    {W A : Type 0} (E : Type 0) (f : W → Option A × W) (w : W)
    → ((f w).0 ≡ none → E)
    → Ends E (λ a v. ((f w).0 ≡ some a) × (v ≡ (f w).1)) (value_or_exit f w)
value_or_exit-Ends E f w fails = go (f w).0 (f w).1 fails
  where
    go :
        {W A : Type 0} {E : Type 0} (r : Option A) (v : W)
        → (r ≡ none → E)
        → Ends E
            (λ a v'. (r ≡ some a) × (v' ≡ v))
            (elim r as (λ b. Outcome W A) [ some a ↦ done a v | none ↦ exit_failure v ])
    go (some a) v fails = (refl, refl)
    go none v fails = fails refl
