-- ===== src/Locks/Rounds.antt =====
-- Threads that increment `var` in rounds, under any lock: what `var` holds.
use networking_howto.Prelude.{
  each, total, total-all, total_change, total_same, update, update_ne, update_self, ℕ, ◌+◌, ◌*◌,
  ◌≤◌, ◌<◌, ◌≡◌, ◌≢◌, ◌^◌, arith, refl, sym, ap, ◌∙◌, subst, u32, u64,
}

-- The places `P` of a thread: which loaded values are to be those of `var`, whether a round is to be
-- finished (1 or 0), and whether its increment has been made.
pub record Places (P : Type 0) : Type 1 where
  pub Loaded : (var : ℕ) → P → Type 0
  pub bound_of : P → ℕ
  pub extra : P → ℕ
  pub outside : P
  pub outside_loaded : (var : ℕ) → Loaded var outside
  pub outside_bound : bound_of outside ≡ 0
  pub outside_extra : extra outside ≡ 0

module _ {P : Type 0} (places : Places P) (n num_iterations : ℕ)
    (few : num_iterations < 2 ^ 64) where
  open places use {Loaded, bound_of, extra, outside}

  abbrev increments : (ℕ → P) → (ℕ → ℕ) → ℕ → ℕ
  increments pc i u = i u + extra (pc u)

  pub record Counted (var : ℕ) (pc : ℕ → P) (i : ℕ → ℕ) : Type 0 where
    pub loaded : (u : ℕ) → u < n → Loaded var (pc u)
    pub rounds : (u : ℕ) → u < n → i u + bound_of (pc u) ≤ num_iterations
    pub counted : var ≡ u32 (total n (increments pc i))

  -- A move of a thread in which neither `var` nor its number of increments changes.
  pub move-Counted :
      {var : ℕ} {pc : ℕ → P} {i : ℕ → ℕ} (t : ℕ) (p p' : P)
      → pc t ≡ p
      → Loaded var p'
      → (t < n → i t + bound_of p' ≤ num_iterations)
      → extra p' ≡ extra p
      → Counted var pc i
      → Counted var (update pc t p') i
  move-Counted {var} {pc} {i} t p p' at loaded rounds same good = record {
    loaded = each (λ u q. u < n → Loaded var q) pc t p' (λ l. loaded) (λ u ne. good.loaded u);
    rounds =
        each (λ u q. u < n → i u + bound_of q ≤ num_iterations) pc t p' rounds
          (λ u ne. good.rounds u);
    counted =
        good.counted
        ∙ ap u32 (
            sym (
              total_same n _ _ (λ u l.
                each (λ v q. i v + extra q ≡ i v + extra (pc v)) pc t p'
                  (ap (λ e. i t + e) (same ∙ ap extra (sym at))) (λ v ne. refl) u)));
  }

  -- The same when the thread was in its round, as it still is.
  pub within-Counted :
      {var : ℕ} {pc : ℕ → P} {i : ℕ → ℕ} (t : ℕ) (p p' : P)
      → t < n
      → pc t ≡ p
      → bound_of p ≡ 1
      → bound_of p' ≡ 1
      → Loaded var p'
      → extra p' ≡ extra p
      → Counted var pc i
      → Counted var (update pc t p') i
  within-Counted {var} {pc} {i} t p p' l at was will loaded same good =
      let bound = good.rounds t l in
      let there = ap bound_of at in
      move-Counted t p p' at loaded (λ l'. omega (arith, bound, there, was, will)) same good

  -- The store of a value that is still that of `var`, plus one, while no other thread has loaded it.
  pub store-Counted :
      {var : ℕ} {pc : ℕ → P} {i : ℕ → ℕ} (t value : ℕ) (p p' : P)
      → t < n
      → pc t ≡ p
      → value ≡ var
      → bound_of p ≡ 1
      → bound_of p' ≡ 1
      → extra p ≡ 0
      → extra p' ≡ 1
      → Loaded (u32 (value + 1)) p'
      → ((u : ℕ) → u < n → u ≢ t → Loaded (u32 (value + 1)) (pc u))
      → Counted var pc i
      → Counted (u32 (value + 1)) (update pc t p') i
  store-Counted {var} {pc} {i} t value p p' l at is_var was will no_extra one_extra here others
        good =
      record {
        loaded =
            each (λ u q. u < n → Loaded (u32 (value + 1)) q) pc t p' (λ l'. here)
              (λ u ne l'. others u l' ne);
        rounds =
            let bound = good.rounds t l in
            let there = ap bound_of at in
            each (λ u q. u < n → i u + bound_of q ≤ num_iterations) pc t p'
              (λ l'. omega (arith, bound, there, was, will)) (λ u ne. good.rounds u);
        counted =
            let sum = good.counted in
            let change =
              total_change n t (increments (update pc t p') i) (increments pc i) l
                (λ u ne. ap (λ q. i u + extra q) (update_ne pc t p' u ne)) in
            let before = ap extra at in
            let later = ap extra (update_self pc t p') in
            omega (arith, is_var, sum, change, before, later, no_extra, one_extra);
      }

  pub round-Counted :
      {var : ℕ} {pc : ℕ → P} {i : ℕ → ℕ} (t : ℕ) (p : P)
      → t < n
      → pc t ≡ p
      → bound_of p ≡ 1
      → extra p ≡ 1
      → Counted var pc i
      → Counted var (update pc t outside) (update i t (u64 (i t + 1)))
  round-Counted {var} {pc} {i} t p l at was done_it good =
      let bound = good.rounds t l in
      let there = ap bound_of at ∙ was in
      let next : u64 (i t + 1) ≡ i t + 1 = omega (arith, bound, there, few) in
      let here = update_self i t (u64 (i t + 1)) in
      let at_test = places.outside_bound in
      let none_extra = places.outside_extra in
      record {
        loaded =
            each (λ u q. u < n → Loaded var q) pc t outside (λ l'. places.outside_loaded var)
              (λ u ne. good.loaded u);
        rounds =
            each (λ u q. u < n → update i t (u64 (i t + 1)) u + bound_of q ≤ num_iterations) pc t
              outside (λ l'. omega (arith, here, next, bound, there, at_test))
              (λ u ne l'.
                subst (λ j. j + bound_of (pc u) ≤ num_iterations)
                  (sym (update_ne i t (u64 (i t + 1)) u ne)) (good.rounds u l'));
        counted =
            good.counted
            ∙ ap u32 (
                sym (
                  total_same n _ _ (λ u l'.
                    each (λ v q. update i t (u64 (i t + 1)) v + extra q ≡ i v + extra (pc v)) pc t
                      outside
                      (let e = ap extra at ∙ done_it in omega (arith, here, next, e, none_extra))
                      (λ v ne. ap (λ j. j + extra (pc v)) (update_ne i t (u64 (i t + 1)) v ne))
                      u)));
      }

  pub start-Counted : Counted 0 (λ t. outside) (λ t. 0)
  start-Counted = record {
    loaded = λ u l. places.outside_loaded 0;
    rounds = λ u l. let at_test = places.outside_bound in omega (arith, at_test);
    counted =
        let none_yet =
          total-all n 0 (λ u. 0 + extra outside)
            (λ u l. let none_extra = places.outside_extra in omega (arith, none_extra)) in
        let product : n * 0 ≡ 0 = grind arith in omega (arith, none_yet, product);
  }

  -- All threads have made their rounds.
  pub all-Counted :
      {var : ℕ} {pc : ℕ → P} {i : ℕ → ℕ}
      → Counted var pc i
      → ((u : ℕ) → u < n → (pc u ≡ outside) × (i u ≡ num_iterations))
      → var ≡ u32 (n * num_iterations)
  all-Counted {var} {pc} {i} good returned =
      good.counted
      ∙ ap u32 (
          total-all n num_iterations (increments pc i) (λ u l.
            let e = ap extra (returned u l).0 in
            let rounds = (returned u l).1 in
            let none_extra = places.outside_extra in omega (arith, e, rounds, none_extra)))
