-- ===== src/Seqlock/Writers.antt =====
-- The steps of the writers of 03_readers_writers/mutex-seqlock.c keep what holds of them.
use networking_howto.Prelude.{
  total-most, total-lt, each, total-all, total_change, total_same, update, update_ne, update_self,
  ℕ, ◌+◌, ◌*◌, ◌%◌, ◌^◌, ◌≤◌, ◌<◌, ◌≡◌, ◌≢◌, Option, none, some, arith, refl, sym, ap, ◌∙◌, subst,
  u32, u64, ℕ_discrete,
}
use networking_howto.Seqlock.{
  WriterPc, outside, locked, entered, loaded_low, storing_high, storing_low, stored, unlocking,
}
use networking_howto.Seqlock.Invariant.{AtRest, Stage, ticks, all_ticks, unfinished, Writing}

owner_or : (o : Option ℕ) (t : ℕ) → Dec (o ≡ some t)
owner_or none t = no (λ e. cc)
owner_or (some u) t = elim (ℕ_discrete u t) [ yes e ↦ yes (ap some e) | no ne ↦ no (λ e. ne (cc)) ]

module _ (inc n iters : ℕ) (few : n * (2 * iters) < 2 ^ 32) where
  module _ {owner : Option ℕ} {seq low high : ℕ} {writer : ℕ → WriterPc} {i : ℕ → ℕ}
      (good : Writing inc n iters owner seq low high writer i) where
    tick_bound : (u : ℕ) → u < n → all_ticks inc writer i u ≤ 2 * iters
    tick_bound u l = go (writer u) (good.rounds u)
      where
        go : (p : WriterPc) → i u + unfinished inc p ≤ iters → 2 * i u + ticks inc p ≤ 2 * iters
        go outside b = omega arith
        go locked b = omega arith
        go entered b = omega arith
        go (loaded_low l) b = omega arith
        go (storing_high c) b = omega arith
        go (storing_low c) b = omega arith
        go stored b = omega arith
        go unlocking b = omega arith

    pub seq-bound : seq ≤ n * (2 * iters)
    seq-bound =
        let most = total-most n (2 * iters) (all_ticks inc writer i) tick_bound in
        let sum = good.counted in omega (arith, most, sum)

    -- A writer in its round owns the mutex.
    pub owns : (t : ℕ) → writer t ≢ outside → owner ≡ some t
    owns t ne = elim (owner_or owner t) [
      | yes e ↦ e
      | no not_owner ↦ absurd (ne (good.waits t not_owner))
    ]

    -- Outside the writes, the halves are those of the value after the rounds that were made.
    pub even-AtRest : seq % 2 ≡ 0 → AtRest inc seq low high
    even-AtRest even = go owner refl
      where
        stage : (p : WriterPc) → seq % 2 ≡ 0 → Stage inc p seq low high → AtRest inc seq low high
        stage outside e h = absurd h
        stage locked e h = h
        stage entered e h = absurd (omega arith)
        stage (loaded_low l) e h = absurd (omega arith)
        stage (storing_high c) e h = absurd (omega arith)
        stage (storing_low c) e h = absurd (omega arith)
        stage stored e h = absurd (omega arith)
        stage unlocking e h = h

        go : (o : Option ℕ) → owner ≡ o → AtRest inc seq low high
        go none e = good.rest e
        go (some t) e = stage (writer t) even (good.held t e).1

    module _ (t : ℕ) (p : WriterPc) (at : writer t ≡ p) (busy : unfinished inc p ≡ 1) where
      not_outside : writer t ≢ outside
      not_outside e =
          let there : unfinished inc p ≡ 0 = ap (unfinished inc) (sym at ∙ e) in
          omega (arith, there, busy)

      pub owner_at : owner ≡ some t
      owner_at = owns t not_outside

      pub Stage-at : (t < n) × Stage inc p seq low high
      Stage-at =
          let (l, stage) = good.held t owner_at in
          (l, subst (λ q. Stage inc q seq low high) at stage)

      -- Another tick of the counter does not wrap around.
      pub tick_fits : ticks inc p ≤ 1 → u32 (seq + 1) ≡ seq + 1
      tick_fits one =
          let l = Stage-at.0 in
          let there = ap (ticks inc) at in
          let bound : i t + unfinished inc p ≤ iters =
            subst (λ q. i t + unfinished inc q ≤ iters) at (good.rounds t) in
          let less =
            total-lt n (2 * iters) t (all_ticks inc writer i) tick_bound l
              (omega (arith, there, bound, busy, one)) in
          let sum = good.counted in omega (arith, less, sum, few)

      -- A step within the round.
      pub step-Writing :
          (p' : WriterPc) (seq' low' high' : ℕ)
          → unfinished inc p' ≡ 1
          → seq' + ticks inc p ≡ seq + ticks inc p'
          → (low' < 2 ^ 32) × (high' < 2 ^ 32)
          → Stage inc p' seq' low' high'
          → Writing inc n iters owner seq' low' high' (update writer t p') i
      step-Writing p' seq' low' high' busy' sum narrow stage = record {
        rest = λ e. absurd (cc (owner_at, e));
        held = λ u e. elim (ℕ_discrete u t) [
          | yes same ↦ (
            subst (λ v. v < n) (sym same) Stage-at.0,
            subst (λ q. Stage inc q seq' low' high')
                (sym (ap (update writer t p') same ∙ update_self writer t p')) stage,
          )
          | no ne ↦ absurd (ne (cc (owner_at, e)))
        ];
        waits = λ u ne.
            each (λ v q. owner ≢ some v → q ≡ outside) writer t p' (λ h. absurd (h owner_at))
              (λ v d. good.waits v) u ne;
        narrow = narrow;
        rounds =
            let bound : i t + unfinished inc p ≤ iters =
              subst (λ q. i t + unfinished inc q ≤ iters) at (good.rounds t) in
            each (λ u q. i u + unfinished inc q ≤ iters) writer t p'
              (omega (arith, bound, busy, busy')) (λ u ne. good.rounds u);
        counted =
            let change =
              total_change n t (all_ticks inc (update writer t p') i) (all_ticks inc writer i)
                Stage-at.0 (λ u ne. ap (λ q. 2 * i u + ticks inc q) (update_ne writer t p' u ne)) in
            let here = ap (ticks inc) (update_self writer t p') in
            let there = ap (ticks inc) at in
            let before = good.counted in omega (arith, change, here, there, before, sum);
      }

      -- The end of the round: the mutex is free again.
      pub end-Writing :
          AtRest inc seq low high
          → ticks inc p ≡ 2
          → Writing inc n iters none seq low high
              (update writer t outside)
              (update i t (u64 (i t + 1)))
      end-Writing rest both =
          let bound : i t + unfinished inc p ≤ iters =
            subst (λ q. i t + unfinished inc q ≤ iters) at (good.rounds t) in
          let l = Stage-at.0 in
          let positive : iters ≤ n * iters = grind arith in
          let product : n * (2 * iters) ≡ 2 * (n * iters) = grind arith in
          let next : u64 (i t + 1) ≡ i t + 1 = omega (arith, bound, busy, few, positive, product) in
          let here = update_self i t (u64 (i t + 1)) in
          record {
            rest = λ e. rest;
            held = λ u e. absurd (cc);
            waits = λ u ne.
                each (λ v q. q ≡ outside) writer t outside refl
                  (λ v d. good.waits v (λ e. d (cc (owner_at, e)))) u;
            narrow = good.narrow;
            rounds =
                each (λ u q. update i t (u64 (i t + 1)) u + unfinished inc q ≤ iters) writer t
                  outside (omega (arith, bound, busy, next, here))
                  (λ u ne.
                    subst (λ j. j + unfinished inc (writer u) ≤ iters)
                      (sym (update_ne i t (u64 (i t + 1)) u ne)) (good.rounds u));
            counted =
                good.counted
                ∙ total_same n _ _ (λ u l'. sym (
                    each
                      (λ v q.
                        2 * update i t (u64 (i t + 1)) v + ticks inc q
                        ≡ 2 * i v + ticks inc (writer v))
                      writer t outside
                      (let there = ap (ticks inc) at in omega (arith, there, both, next, here))
                      (λ v ne.
                        ap (λ j. 2 * j + ticks inc (writer v)) (update_ne i t (u64 (i t + 1)) v ne))
                      u));
          }

  -- The mutex is taken while it is free.
  pub lock-Writing :
      {seq low high : ℕ} {writer : ℕ → WriterPc} {i : ℕ → ℕ} (t : ℕ)
      → t < n
      → i t < iters
      → writer t ≡ outside
      → Writing inc n iters none seq low high writer i
      → Writing inc n iters (some t) seq low high (update writer t locked) i
  lock-Writing {seq} {low} {high} {writer} {i} t l more at good = record {
    rest = λ e. absurd (cc);
    held = λ u e. elim (ℕ_discrete u t) [
      | yes same ↦ (
        subst (λ v. v < n) (sym same) l,
        subst (λ q. Stage inc q seq low high)
            (sym (ap (update writer t locked) same ∙ update_self writer t locked)) (good.rest refl),
      )
      | no ne ↦ absurd (ne (cc))
    ];
    waits = λ u ne.
        each (λ v q. some t ≢ some v → q ≡ outside) writer t locked (λ h. absurd (h refl))
          (λ v d h. good.waits v (λ e. cc)) u ne;
    narrow = good.narrow;
    rounds =
        each (λ u q. i u + unfinished inc q ≤ iters) writer t locked (omega (arith, more))
          (λ u ne. good.rounds u);
    counted =
        good.counted
        ∙ total_same n _ _ (λ u l'. sym (
            each (λ v q. 2 * i v + ticks inc q ≡ 2 * i v + ticks inc (writer v)) writer t locked
              (let there = ap (ticks inc) at in omega (arith, there)) (λ v ne. refl) u));
  }

  pub stand-Writing : Writing inc n iters none 0 0 0 (λ t. outside) (λ t. 0)
  stand-Writing = record {
    rest = λ e. (refl, let product : 0 * inc ≡ 0 = grind arith in omega (arith, product));
    held = λ t e. absurd (cc);
    waits = λ t ne. refl;
    narrow = (omega arith, omega arith);
    rounds = λ t. omega arith;
    counted =
        let none_yet = total-all n 0 (λ u. 0) (λ u l. refl) in
        let product : n * 0 ≡ 0 = grind arith in omega (arith, none_yet, product);
  }
