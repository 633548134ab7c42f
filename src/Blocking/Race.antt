-- ===== src/Blocking/Race.antt =====
-- 01_blocking_sync/race.c: the same counter without a lock.
use networking_howto.Prelude.{
  total-most, each, total, total_change, update, update_self, update_ne, ℕ, zero, suc, ◌+◌, ◌*◌,
  ◌≤◌, ◌<◌, ◌≡◌, ◌^◌, Bool-cases, ltb, ltb→lt, lt→ltb, true, inl, inr, List, [], ◌∷◌, if◌then◌else◌,
  arith, refl, sym, ap, ◌∙◌, subst, u32, u64, ℕ_discrete,
}
use networking_howto.Locks.Counter.{AllBelow}

-- At the test of the loop, or about to store the value that was loaded plus one.
pub data RacePc : Type 0 where
  between : RacePc
  adding : (value : ℕ) → RacePc

pub record Race : Type 0 where
  pub var : ℕ
  pub pc : ℕ → RacePc
  pub i : ℕ → ℕ

-- One step of the `thread_func` of thread `t`: the load of `var++`, or its store.
unfoldable pub race_at : (num_iterations t : ℕ) → Race → RacePc → Race
race_at num_iterations t s between =
    if ltb (s.i t) num_iterations then record s { pc = update s.pc t (adding s.var) } else s
race_at num_iterations t s (adding value) = record {
  var = u32 (value + 1);
  pc = update s.pc t between;
  i = update s.i t (u64 (s.i t + 1));
}

unfoldable pub race_run : (num_iterations : ℕ) → List ℕ → Race → Race
unfolding race_at
race_run num_iterations [] s = s
race_run num_iterations (t ∷ ts) s =
    race_run num_iterations ts (race_at num_iterations t s (s.pc t))

abbrev pub race_start : Race
race_start = record { var = 0; pc = λ t. between; i = λ t. 0 }

-- `k` rounds of threads 0 and 1, each round with both loads before both stores.
abbrev pub in_step : (k : ℕ) → List ℕ
in_step zero = []
in_step (suc k) = 0 ∷ 1 ∷ 0 ∷ 1 ∷ in_step k

abbrev pub NotAbove : (bound : ℕ) → RacePc → Type 0
NotAbove bound between = Unit
NotAbove bound (adding value) = value ≤ bound

module _ (n num_iterations : ℕ) (few : n * num_iterations < 2 ^ 32) where
  -- No value is above the number of increments that were made.
  record Bounded (s : Race) : Type 0 where
    var_bound : s.var ≤ total n s.i
    loaded : (t : ℕ) → NotAbove (total n s.i) (s.pc t)
    rounds : (t : ℕ) → s.i t ≤ num_iterations
    unfinished : (t v : ℕ) → s.pc t ≡ adding v → s.i t < num_iterations

  later : (a b : ℕ) (p : RacePc) → a ≤ b → NotAbove a p → NotAbove b p
  later a b between le h = tt
  later a b (adding v) le h = omega arith

  race_at-Bounded :
      (t : ℕ) (s : Race) (p : RacePc)
      → t < n
      → s.pc t ≡ p
      → Bounded s
      → Bounded (race_at num_iterations t s p)
  unfolding race_at
  race_at-Bounded t s between l at good = elim (Bool-cases (ltb (s.i t) num_iterations)) [
    | inl more ↦ rw more (record {
      var_bound = good.var_bound;
      loaded =
          each (λ u q. NotAbove (total n s.i) q) s.pc t (adding s.var) good.var_bound
            (λ u ne. good.loaded u);
      rounds = good.rounds;
      unfinished =
          each (λ u q. (v : ℕ) → q ≡ adding v → s.i u < num_iterations) s.pc t (adding s.var)
            (λ v e. ltb→lt _ _ more) (λ u ne v e. good.unfinished u v e);
    })
    | inr over ↦ rw over good
  ]
  race_at-Bounded t s (adding value) l at good =
      let less = good.unfinished t value at in
      let large : num_iterations ≤ n * num_iterations = grind arith in
      let next : u64 (s.i t + 1) ≡ s.i t + 1 = omega (arith, less, large, few) in
      let here = update_self s.i t (u64 (s.i t + 1)) in
      let change =
        total_change n t (update s.i t (u64 (s.i t + 1))) s.i l
          (λ u ne. update_ne s.i t (u64 (s.i t + 1)) u ne) in
      let loaded : value ≤ total n s.i = subst (NotAbove (total n s.i)) at (good.loaded t) in
      record {
        var_bound = omega (arith, loaded, change, here, next);
        loaded =
            each (λ u q. NotAbove (total n (update s.i t (u64 (s.i t + 1)))) q) s.pc t between tt
              (λ u ne.
                later (total n s.i) _ (s.pc u) (omega (arith, change, here, next)) (good.loaded u));
        rounds =
            each (λ u k. k ≤ num_iterations) s.i t (u64 (s.i t + 1)) (omega (arith, next, less))
              (λ u ne. good.rounds u);
        unfinished = λ u. elim (ℕ_discrete u t) [
          | yes e ↦ λ v h. absurd (
              let at_u : update s.pc t between u ≡ between =
                ap (update s.pc t between) e ∙ update_self s.pc t between in
              cc)
          | no ne ↦ λ v h.
              subst (λ k. k < num_iterations) (sym (update_ne s.i t (u64 (s.i t + 1)) u ne))
                (good.unfinished u v (sym (update_ne s.pc t between u ne) ∙ h))
        ];
      }

  race_run-Bounded :
      (ts : List ℕ) (s : Race) → AllBelow n ts → Bounded s → Bounded (race_run num_iterations ts s)
  unfolding race_run
  race_run-Bounded [] s below good = good
  race_run-Bounded (t ∷ ts) s below good =
      race_run-Bounded ts (race_at num_iterations t s (s.pc t)) below.1
        (race_at-Bounded t s (s.pc t) below.0 refl good)

  -- If the rounds of all threads together are fewer than 2^32, then in any order of the loads and
  -- stores `var` is at most the number of rounds that were finished, and that of all rounds.
  pub race_at_most :
      (ts : List ℕ)
      → AllBelow n ts
      → let s = race_run num_iterations ts race_start in
        (s.var ≤ total n s.i) × (s.var ≤ n * num_iterations)
  race_at_most ts below =
      let start : Bounded race_start = record {
        var_bound = omega arith;
        loaded = λ t. tt;
        rounds = λ t. omega arith;
        unfinished = λ t v e. absurd (cc);
      } in
      let good = race_run-Bounded ts race_start below start in
      let sum =
        total-most n num_iterations (race_run num_iterations ts race_start).i
          (λ u l. good.rounds u) in
      let bound = good.var_bound in (bound, omega (arith, bound, sum))

module _ (num_iterations : ℕ) (few : num_iterations < 2 ^ 32) where
  -- Both threads have made `k` rounds, and `var` is `k`.
  abbrev pub InStep : ℕ → Race → Type 0
  InStep k s = (s.var ≡ k) × (s.pc 0 ≡ between) × (s.pc 1 ≡ between) × (s.i 0 ≡ k) × (s.i 1 ≡ k)

  load :
      (t : ℕ) (s : Race)
      → s.pc t ≡ between
      → s.i t < num_iterations
      → race_at num_iterations t s (s.pc t) ≡ record s { pc = update s.pc t (adding s.var) }
  unfolding race_at
  load t s at more =
      let test = lt→ltb (s.i t) num_iterations more in
      ap (race_at num_iterations t s) at ∙ there test
    where
      there :
          ltb (s.i t) num_iterations ≡ true
          → (if ltb (s.i t) num_iterations
              then record s { pc = update s.pc t (adding s.var) }
              else s)
            ≡ record s { pc = update s.pc t (adding s.var) }
      there e = rw e refl

  abbrev after_round : Race → Race
  after_round s = record {
    var = u32 (s.var + 1);
    pc =
        update (update (update (update s.pc 0 (adding s.var)) 1 (adding s.var)) 0 between) 1
          between;
    i = update (update s.i 0 (u64 (s.i 0 + 1))) 1 (u64 (s.i 1 + 1));
  }

  -- In such a round one of the two increments is lost.
  round_lem :
      (ts : List ℕ) (k : ℕ) (s : Race)
      → k < num_iterations
      → InStep k s
      → race_run num_iterations (0 ∷ 1 ∷ 0 ∷ 1 ∷ ts) s ≡ race_run num_iterations ts (after_round s)
  unfolding race_run
  round_lem ts k s more (var, pc0, pc1, i0, i1) =
      ap (race_run num_iterations (1 ∷ 0 ∷ 1 ∷ ts)) (load 0 s pc0 (omega (arith, i0, more)))
      ∙ ap (race_run num_iterations (0 ∷ 1 ∷ ts))
          (load 1 (record s { pc = update s.pc 0 (adding s.var) }) pc1 (omega (arith, i1, more)))

  after_round-InStep :
      (k : ℕ) (s : Race) → k < num_iterations → InStep k s → InStep (suc k) (after_round s)
  after_round-InStep k s more (var, pc0, pc1, i0, i1) = (
    omega (arith, var, more, few),
    refl,
    refl,
    omega (arith, i0, more, few),
    omega (arith, i1, more, few),
  )

  in_step-InStep :
      (k done_rounds : ℕ) (s : Race)
      → done_rounds + k ≤ num_iterations
      → InStep done_rounds s
      → InStep (done_rounds + k) (race_run num_iterations (in_step k) s)
  unfolding race_run
  in_step-InStep zero made s le good =
      subst (λ m. InStep m s) (let same : made ≡ made + 0 = omega arith in same) good
  in_step-InStep (suc k) made s le good =
      let next =
        in_step-InStep k (suc made) (after_round s) (omega arith)
          (after_round-InStep made s (omega arith) good) in
      let same : suc made + k ≡ made + suc k = omega arith in
      subst (λ s'. InStep (made + suc k) s') (sym (round_lem (in_step k) made s (omega arith) good))
        (subst (λ m. InStep m (race_run num_iterations (in_step k) (after_round s))) same next)

  -- For any number of rounds below 2^32 there is an order of the loads and stores of two threads in
  -- which both make all their rounds and `var` is the number of rounds of one: half of the increments
  -- are lost.
  pub race_loses_half :
      let s = race_run num_iterations (in_step num_iterations) race_start in
      (s.i 0 ≡ num_iterations) × (s.i 1 ≡ num_iterations) × (s.var ≡ num_iterations)
  race_loses_half =
      let (var, _, _, i0, i1) =
        in_step-InStep num_iterations 0 race_start (omega arith) (refl, refl, refl, refl, refl) in
      (omega (arith, i0), omega (arith, i1), omega (arith, var))
