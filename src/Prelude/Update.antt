-- ===== src/Prelude/Update.antt =====
-- Arrays as functions: one entry changed, and sums over the first entries.
use Prim.Native.Nat.{ℕ, zero, suc, ◌+◌, ◌*◌, ◌≤◌, ◌<◌}
use mathlib.Core.Path.{◌≡◌, refl, ap, sym, subst}
use mathlib.Core.Logic.{◌≢◌, inl, inr}
use native.Mathlib.Omega.{arith}
use native.Mathlib.Decide.{ℕ_discrete}
use networking_howto.Prelude.Tests.{◌==◌, if◌then◌else◌, Bool-cases, ==_iff}

abbrev pub update : {A : Type 0} → (ℕ → A) → ℕ → A → ℕ → A
update f t a u = if u == t then a else f u

pub update_self : {A : Type 0} (f : ℕ → A) (t : ℕ) (a : A) → update f t a t ≡ a
update_self f t a = let e = (==_iff t t).1 refl in rw e refl

pub update_ne : {A : Type 0} (f : ℕ → A) (t : ℕ) (a : A) (u : ℕ) → u ≢ t → update f t a u ≡ f u
update_ne f t a u ne = elim (Bool-cases (u == t)) [
  | inl e ↦ absurd (ne ((==_iff u t).0 e))
  | inr e ↦ rw e refl
]

-- A fact about every entry, after entry `t` has been set to `a`.
pub each :
    {A : Type 0} (P : ℕ → A → Type 0) (f : ℕ → A) (t : ℕ) (a : A)
    → P t a
    → ((u : ℕ) → u ≢ t → P u (f u))
    → (u : ℕ) → P u (update f t a u)
each P f t a here there u = elim (ℕ_discrete u t) [
  | yes e ↦ subst (λ v. P v (update f t a v)) (sym e) (subst (P t) (sym (update_self f t a)) here)
  | no ne ↦ subst (P u) (sym (update_ne f t a u ne)) (there u ne)
]

abbrev pub total : ℕ → (ℕ → ℕ) → ℕ
total zero f = 0
total (suc n) f = total n f + f n

pub total_same : (n : ℕ) (f g : ℕ → ℕ) → ((u : ℕ) → u < n → f u ≡ g u) → total n f ≡ total n g
total_same zero f g same = refl
total_same (suc n) f g same =
    let before = total_same n f g (λ u l. same u (omega (arith, l))) in
    let last = same n (omega arith) in omega (arith, before, last)

-- If only thread `t` changes its summand, the sum changes by as much.
pub total_change :
    (n t : ℕ) (f g : ℕ → ℕ)
    → t < n
    → ((u : ℕ) → u ≢ t → f u ≡ g u)
    → total n f + g t ≡ total n g + f t
total_change zero t f g small same = absurd (omega arith)
total_change (suc n) t f g small same = elim (ℕ_discrete n t) [
  | yes e ↦
      let before = total_same n f g (λ u l. same u (λ e'. omega (arith, e, e', l))) in
      let in_f = ap f e in let in_g = ap g e in omega (arith, before, in_f, in_g)
  | no ne ↦
      let before = total_change n t f g (omega (arith, ne)) same in
      let last = same n ne in omega (arith, before, last)
]

pub total-bound : (n : ℕ) (f : ℕ → ℕ) → ((u : ℕ) → f u ≤ 1) → total n f ≤ n
total-bound zero f most = omega arith
total-bound (suc n) f most =
    let before = total-bound n f most in let last = most n in omega (arith, before, last)

pub total-all : (n k : ℕ) (f : ℕ → ℕ) → ((u : ℕ) → u < n → f u ≡ k) → total n f ≡ n * k
total-all zero k f all = omega arith
total-all (suc n) k f all =
    let before = total-all n k f (λ u l. all u (omega (arith, l))) in
    let last = all n (omega arith) in
    let product : suc n * k ≡ n * k + k = grind arith in omega (arith, before, last, product)

pub total-part : (n i : ℕ) (f : ℕ → ℕ) → i < n → f i ≤ total n f
total-part zero i f small = absurd (omega arith)
total-part (suc n) i f small = elim (ℕ_discrete n i) [
  | yes e ↦ let last = ap f e in omega (arith, last)
  | no ne ↦ let before = total-part n i f (omega (arith, ne)) in omega (arith, before)
]

-- A bound on each of the first `n` summands.
pub total-most : (n k : ℕ) (f : ℕ → ℕ) → ((u : ℕ) → u < n → f u ≤ k) → total n f ≤ n * k
total-most zero k f most = omega arith
total-most (suc n) k f most =
    let before = total-most n k f (λ u l. most u (omega (arith, l))) in
    let last = most n (omega arith) in
    let product : suc n * k ≡ n * k + k = grind arith in omega (arith, before, last, product)

-- The bound is not met if one summand lies below it.
pub total-lt :
    (n k t : ℕ) (f : ℕ → ℕ) → ((u : ℕ) → u < n → f u ≤ k) → t < n → f t < k → total n f < n * k
total-lt n k t f most l less =
    let more = update f t (f t + 1) in
    let bound = total-most n k more (λ u l'.
      each (λ v a. v < n → a ≤ k) f t (f t + 1) (λ l''. omega (arith, less)) (λ v ne. most v) u
        l') in
    let change = total_change n t f more l (λ u ne. sym (update_ne f t (f t + 1) u ne)) in
    let here = update_self f t (f t + 1) in omega (arith, bound, change, here)
