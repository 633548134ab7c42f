-- ===== src/Locks/ArrayQueue/Order.antt =====
-- The order of arrayqueue-lock.c: each thread that waits or is inside has a number of its own, and only
-- the flag of the number that is served may be up.
use networking_howto.Prelude.{
  each, total, total-all, total_same, update, update_ne, ℕ, ◌+◌, ◌*◌, ◌%◌, ◌≤◌, ◌<◌, ◌≡◌, ◌≢◌, ◌^◌,
  Bool, true, false, arith, refl, sym, ap, ◌∙◌, u16, ℕ_discrete,
}
use native.Mathlib.Nat.{zero-mod}
use networking_howto.Prelude.Bits.{pow_mono}
use networking_howto.Locks.ArrayQueue.{Pc, outside, spinning, inside, to_pass, System, go, start}

abbrev pub active : Pc → ℕ
active outside = 0
active (spinning index iteration) = 1
active (inside c) = 1
active (to_pass index) = 1

pub active-bound : (p : Pc) → active p ≤ 1
active-bound outside = omega arith
active-bound (spinning index iteration) = omega arith
active-bound (inside c) = omega arith
active-bound (to_pass index) = omega arith

-- In the critical section, or between the two stores of `AQL_release`.
abbrev pub owns : Pc → Bool
owns outside = false
owns (spinning index iteration) = false
owns (inside c) = true
owns (to_pass index) = true

pub owner-active : (p : Pc) → owns p ≡ true → active p ≡ 1
owner-active outside e = let clash : false ≡ true = e in cc
owner-active (spinning index iteration) e = refl
owner-active (inside c) e = refl
owner-active (to_pass index) e = refl

abbrev pub passes : Pc → Bool
passes outside = false
passes (spinning index iteration) = false
passes (inside c) = false
passes (to_pass index) = true

pub passes-owns : (p : Pc) → passes p ≡ true → owns p ≡ true
passes-owns outside e = e
passes-owns (spinning index iteration) e = e
passes-owns (inside c) e = refl
passes-owns (to_pass index) e = refl

-- A local index is that of the thread-local memory.
abbrev pub Local : ℕ → Pc → Type 0
Local memory outside = Unit
Local memory (spinning index iteration) = index ≡ memory
Local memory (inside c) = Unit
Local memory (to_pass index) = index ≡ memory

module _ (k n : ℕ) (narrow : k < 16) (few : n ≤ 2 ^ k) where
  abbrev pub m : ℕ
  m = 2 ^ k

  pub record Placed (served issued number memory : ℕ) (p : Pc) : Type 0 where
    pub within : active p ≡ 1 → (served ≤ number) × (number < issued) × (memory ≡ number % m)
    pub own_index : Local memory p
    pub first : owns p ≡ true → number ≡ served

  pub record Queue (s : System) : Type 0 where
    pub served : ℕ
    pub issued : ℕ
    pub number : ℕ → ℕ
    pub sized : s.lock.size ≡ m
    pub next : s.lock.head ≡ u16 issued
    pub counted : issued ≡ served + total n (λ u. active (s.pc u))
    pub placed : (u : ℕ) → u < n → Placed served issued (number u) (s.index u) (s.pc u)
    pub distinct :
        (u v : ℕ)
        → u < n
        → v < n
        → active (s.pc u) ≡ 1
        → active (s.pc v) ≡ 1
        → number u ≡ number v
        → u ≡ v
    pub only_served : (j : ℕ) → j < m → s.lock.available j ≢ 0 → j ≡ served % m
    pub cleared :
        (u : ℕ) → u < n → passes (s.pc u) ≡ true → (j : ℕ) → j < m → s.lock.available j ≡ 0

  pub owner_alone :
      (s : System) (t u : ℕ)
      → Queue s
      → t < n
      → u < n
      → owns (s.pc t) ≡ true
      → owns (s.pc u) ≡ true
      → t ≡ u
  owner_alone s t u q l l' mine his =
      q.distinct t u l l' (owner-active (s.pc t) mine) (owner-active (s.pc u) his)
        ((q.placed t l).first mine ∙ sym ((q.placed u l').first his))

  active_same :
      (pc : ℕ → Pc) (t : ℕ) (p : Pc)
      → active p ≡ active (pc t)
      → (u : ℕ) → active (update pc t p u) ≡ active (pc u)
  active_same pc t p same u = each (λ v q. active q ≡ active (pc v)) pc t p same (λ v ne. refl) u

  -- A thread that keeps its number, with flags that may only go down.
  pub keep-Queue :
      (s : System) (t : ℕ) (p : Pc) (available : ℕ → ℕ) (q : Queue s)
      → active p ≡ active (s.pc t)
      → (t < n → Local (s.index t) p)
      → (t < n → owns p ≡ true → q.number t ≡ q.served)
      → ((j : ℕ) → j < m → s.lock.available j ≡ 0 → available j ≡ 0)
      → (passes p ≡ true → (j : ℕ) → j < m → available j ≡ 0)
      → Queue (go (record s { lock = record s.lock { available = available } }) t p)
  keep-Queue s t p available q same own_index first down clear = record {
    served = q.served;
    issued = q.issued;
    number = q.number;
    sized = q.sized;
    next = q.next;
    counted =
        q.counted
        ∙ ap (λ c. q.served + c) (sym (total_same n _ _ (λ u l. active_same s.pc t p same u)));
    placed =
        each (λ u r. u < n → Placed q.served q.issued (q.number u) (s.index u) r) s.pc t p
          (λ l. record {
            within = λ a. (q.placed t l).within (sym same ∙ a);
            own_index = own_index l;
            first = first l;
          })
          (λ u ne. q.placed u);
    distinct = λ u v l l' a a' e.
        q.distinct u v l l' (sym (active_same s.pc t p same u) ∙ a)
          (sym (active_same s.pc t p same v) ∙ a') e;
    only_served = λ j l up. q.only_served j l (λ e. up (down j l e));
    cleared =
        each (λ u r. u < n → passes r ≡ true → (j : ℕ) → j < m → available j ≡ 0) s.pc t p
          (λ l. clear) (λ u ne l pass j l'. down j l' (q.cleared u l pass j l'));
  }

  pub start-Queue : Queue (start m)
  start-Queue =
      let small = pow_mono k 15 (omega (arith, narrow)) in
      record {
        served = 0;
        issued = 0;
        number = λ u. 0;
        sized = omega (arith, small);
        next = refl;
        counted =
            let none_yet = total-all n 0 (λ u. 0) (λ u l. refl) in
            let product : n * 0 ≡ 0 = grind arith in omega (arith, none_yet, product);
        placed = λ u l. record {
          within = λ e. absurd (omega (arith, e));
          own_index = tt;
          first = λ e. let clash : false ≡ true = e in cc;
        };
        distinct = λ u v l l' a. absurd (omega (arith, a));
        only_served = λ j l up. elim (ℕ_discrete j 0) [
          | yes e ↦ e ∙ sym (zero-mod m)
          | no ne ↦ absurd (up (update_ne (λ i. 0) 0 1 j ne))
        ];
        cleared = λ u l e. let clash : false ≡ true = e in cc;
      }
