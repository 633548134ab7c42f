-- ===== src/Atomics/Counter.antt =====
-- What atomics.c is written to show: no increment is lost.
use networking_howto.Prelude.{
  total, total-all, total_change, update, update_ne, update_self, ℕ, ◌+◌, ◌*◌, ◌≤◌, ◌<◌, ◌≡◌, ◌^◌,
  List, [], ◌∷◌, ltb, ltb→lt, Bool-cases, inl, inr, arith, refl, sym, ap, ◌∙◌, subst, u32, u64,
  ℕ_discrete,
}
use networking_howto.Locks.Counter.{AllBelow}
use networking_howto.Atomics.{Counting, count_once, count_all, zeroed}

module _ (num_threads num_iterations : ℕ) (few : num_iterations < 2 ^ 64) where
  record Counted (s : Counting) : Type 0 where
    counted : s.var ≡ u32 (total num_threads s.i)
    rounds : (u : ℕ) → s.i u ≤ num_iterations

  once-Counted :
      (t : ℕ) (s : Counting) → t < num_threads → Counted s → Counted (count_once num_iterations t s)
  unfolding count_once
  once-Counted t s l good = elim (Bool-cases (ltb (s.i t) num_iterations)) [
    | inl more ↦ rw more (advanced (ltb→lt (s.i t) num_iterations more))
    | inr over ↦ rw over good
  ]
    where
      next : s.i t < num_iterations → u64 (s.i t + 1) ≡ s.i t + 1
      next more = omega (arith, more, few)

      advanced :
          s.i t < num_iterations
          → Counted (record { var = u32 (s.var + 1); i = update s.i t (u64 (s.i t + 1)) })
      advanced more = record {
        counted =
            let was = good.counted in
            let change =
              total_change num_threads t (update s.i t (u64 (s.i t + 1))) s.i l
                (update_ne s.i t (u64 (s.i t + 1))) in
            let here = update_self s.i t (u64 (s.i t + 1)) ∙ next more in
            omega (arith, was, change, here);
        rounds = λ u. elim (ℕ_discrete u t) [
          | yes e ↦
              let here =
                ap (update s.i t (u64 (s.i t + 1))) e
                ∙ update_self s.i t (u64 (s.i t + 1))
                ∙ next more in
              omega (arith, here, more)
          | no ne ↦
              subst (λ k. k ≤ num_iterations) (sym (update_ne s.i t (u64 (s.i t + 1)) u ne))
                (good.rounds u)
        ];
      }

  all-Counted :
      (ts : List ℕ) (s : Counting)
      → AllBelow num_threads ts
      → Counted s
      → Counted (count_all num_iterations ts s)
  unfolding count_all
  all-Counted [] s below good = good
  all-Counted (t ∷ ts) s below good =
      all-Counted ts (count_once num_iterations t s) below.1 (once-Counted t s below.0 good)

  zeroed-Counted : Counted zeroed
  zeroed-Counted = record {
    counted =
        let none_yet = total-all num_threads 0 (λ u. 0) (λ u l. refl) in
        let product : num_threads * 0 ≡ 0 = grind arith in omega (arith, none_yet, product);
    rounds = λ u. omega arith;
  }

  -- For any number of threads, fewer than 2^64 rounds and any order of the increments: once every
  -- thread has made its rounds, `var` is the number of threads times the number of rounds, reduced
  -- to 32 bits.
  pub atomics_count :
      (ts : List ℕ)
      → AllBelow num_threads ts
      → let s = count_all num_iterations ts zeroed in
        ((u : ℕ) → u < num_threads → s.i u ≡ num_iterations)
        → s.var ≡ u32 (num_threads * num_iterations)
  atomics_count ts below all =
      (all-Counted ts zeroed below zeroed-Counted).counted
      ∙ ap u32 (total-all num_threads num_iterations (count_all num_iterations ts zeroed).i all)
