-- ===== src/RwLock/Safety.antt =====
-- What the lock of 03_readers_writers/mutex.c and rwlock.c gives its writers and readers.
use mathlib.Core.Path.{fun_ext}
use networking_howto.Prelude.{
  each, total, total-all, update, update_self, update_ne, ℕ, ◌+◌, ◌*◌, ◌^◌, ◌≤◌, ◌<◌, ◌≡◌, ◌≢◌,
  Bool, true, false, List, [], ◌∷◌, if◌then◌else◌, ltb, ltb→lt, ◌==◌, ==_iff, Bool-cases, inl, inr,
  arith, refl, sym, ap, ◌∙◌, u64, ℕ_discrete,
}
use networking_howto.RwLock.{
  RwLock, RwPc, at_loop, add_loading, add_storing, add_unlocking, copying, copy_unlocking, finished,
  Sharing, move_to, stop_value, rw_released, rw_at, rw_run, rw_start,
}
use networking_howto.RwLock.Invariant.{
  RwLaws, held_at, nothing, exclusive, increments_made, open_round, IsLoaded, added, Earlier, made,
  within-RwInv,
}
use networking_howto.RwLock.Steps.{Fine, wrlock-Fine, rdlock-Fine, unlock-Fine, store-Fine}

module _ (rwlock : RwLock) (laws : RwLaws rwlock) (n iters inc : ℕ) (few : iters < 2 ^ 64) where
  abbrev Well : Sharing rwlock → Type 0
  Well s = Fine inc rwlock laws n iters few s

  copy-Well :
      (t : ℕ) (s : Sharing rwlock)
      → Well s
      → s.pc t ≡ copying
      → Well (move_to rwlock (record s { copy = update s.copy t s.shared_var }) t copy_unlocking)
  copy-Well t s good at =
      let moved =
        within-RwInv inc rwlock laws n iters few s t copying copy_unlocking good at refl tt refl
          refl (λ l e. absurd (cc)) in
      record {
        held = moved.held;
        alone = moved.alone;
        writers = moved.writers;
        loaded = moved.loaded;
        bounded = moved.bounded;
        summed = moved.summed;
        copied =
            each (λ u c. Earlier inc (total n (made inc (update s.pc t copy_unlocking) s.i)) c)
              s.copy t s.shared_var
              (total n (made inc (update s.pc t copy_unlocking) s.i), omega arith, moved.summed)
              (λ u ne. moved.copied u);
        last = λ u. elim (ℕ_discrete u t) [
          | yes e ↦ λ l h. absurd (
              let here = ap (update s.pc t copy_unlocking) e ∙ update_self s.pc t copy_unlocking in
              cc)
          | no ne ↦ λ l h. update_ne s.copy t s.shared_var u ne ∙ moved.last u l h
        ];
      }

  rw_at-Well :
      (t : ℕ) (s : Sharing rwlock) (p : RwPc)
      → Well s
      → s.pc t ≡ p
      → Well (rw_at rwlock n iters inc t s p)
  unfolding rw_at
  rw_at-Well t s at_loop good at = elim (Bool-cases (ltb t n)) [
    | inl writes ↦
        let l = ltb→lt t n writes in
        rw writes (elim (Bool-cases (ltb (s.i t) iters)) [
          | inl more ↦ rw more (
              wrlock-Fine inc rwlock laws n iters few t s (rwlock.wrlock t s.lock_state) good l at
                (ltb→lt _ _ more) refl)
          | inr over ↦ rw over (finish l)
        ])
    | inr reads ↦
        rw reads
          (rdlock-Fine inc rwlock laws n iters few t s (rwlock.rdlock t s.lock_state) good at refl)
  ]
    where
      finish : t < n → Well (move_to rwlock s t finished)
      finish l =
          within-RwInv inc rwlock laws n iters few s t at_loop finished good at refl tt refl refl
            (λ l' e. absurd (omega (arith, l, l')))
  rw_at-Well t s add_loading good at =
      within-RwInv inc rwlock laws n iters few s t add_loading (add_storing s.shared_var) good at
        refl refl refl refl (λ l e. absurd (cc))
  rw_at-Well t s (add_storing value) good at =
      store-Fine inc rwlock laws n iters few t value s good at
  rw_at-Well t s add_unlocking good at =
      let bound = good.bounded t in
      let open_at = ap open_round at in
      let made_at = ap increments_made at in
      let next : u64 (s.i t + 1) ≡ s.i t + 1 = omega (arith, bound, open_at, few) in
      unlock-Fine inc rwlock laws n iters few t s (u64 (s.i t + 1)) at_loop
        (rwlock.unlock t s.lock_state) good (λ h. let here = ap held_at at in cc) refl tt
        (omega (arith, bound, open_at, next)) (omega (arith, made_at, next)) (λ l h. absurd (cc))
        refl
  rw_at-Well t s copying good at = copy-Well t s good at
  rw_at-Well t s copy_unlocking good at =
      elim (Bool-cases (s.copy t == stop_value rwlock n iters inc)) [
        | inl is_last ↦
            rw is_last (release finished refl tt refl refl (λ h. (==_iff _ _).0 is_last))
        | inr older ↦ rw older (release at_loop refl tt refl refl (λ h. absurd (cc)))
      ]
    where
      release :
          (p : RwPc)
          → held_at p ≡ nothing
          → IsLoaded s.shared_var p
          → open_round p ≡ 0
          → increments_made p ≡ 0
          → (p ≡ finished → s.copy t ≡ stop_value rwlock n iters inc)
          → Well (rw_released rwlock t s (s.i t) p (rwlock.unlock t s.lock_state))
      release p free loaded no_round none_made last =
          let bound = good.bounded t in
          let made_at = ap increments_made at in
          unlock-Fine inc rwlock laws n iters few t s (s.i t) p (rwlock.unlock t s.lock_state) good
            (λ h. let here = ap held_at at in cc) free loaded (omega (arith, bound, no_round))
            (omega (arith, made_at, none_made)) (λ l h. last h) refl
  rw_at-Well t s finished good at = good

  rw_run-Well : (ts : List ℕ) (s : Sharing rwlock) → Well s → Well (rw_run rwlock n iters inc ts s)
  unfolding rw_run
  rw_run-Well [] s good = good
  rw_run-Well (t ∷ ts) s good =
      rw_run-Well ts (if s.exited then s else rw_at rwlock n iters inc t s (s.pc t))
        (either s.exited)
    where
      either : (b : Bool) → Well (if b then s else rw_at rwlock n iters inc t s (s.pc t))
      either true = good
      either false = rw_at-Well t s (s.pc t) good refl

  start-Well : Well (rw_start rwlock)
  start-Well =
      let none_yet = total-all n 0 (λ u. 0) (λ u l. refl) in
      let product : n * 0 ≡ 0 = grind arith in
      let nothing_added : 0 * inc ≡ 0 = grind arith in
      let sum : total n (λ u. 0) ≡ 0 = omega (arith, none_yet, product) in
      record {
        held = fun_ext (λ t. laws.free_at_first t);
        alone = λ t u ne e. refl;
        writers = λ t e. absurd (cc);
        loaded = λ t. tt;
        bounded = λ t. omega arith;
        summed = start_sum nothing_added ∙ ap (added inc) (sym sum);
        copied = λ t. (0, omega arith, start_sum nothing_added);
        last = λ t l e. absurd (cc);
      }
    where
      start_sum : 0 * inc ≡ 0 → 0 ≡ u64 (0 * inc)
      start_sum e = omega (arith, e)

  -- If the lock does what its documentation says and the rounds are fewer than 2^64, then in any order
  -- of the steps a writer that is in its critical section, from behind the lock to before the unlock,
  -- is alone: no other thread, writer or reader, is in its own.
  pub rw_excludes :
      (ts : List ℕ) (t u : ℕ)
      → let s = rw_run rwlock n iters inc ts (rw_start rwlock) in
        t ≢ u → held_at (s.pc t) ≡ exclusive → held_at (s.pc u) ≡ nothing
  rw_excludes ts t u ne e = (rw_run-Well ts (rw_start rwlock) start-Well).alone t u ne e

  -- If the lock does what its documentation says and the rounds are fewer than 2^64, then once all
  -- writers have returned with their rounds made, no update is lost: the variable is the number of
  -- writers times the rounds times the increment, as a `uint64_t`, at which the readers stop.
  pub rw_counts :
      (ts : List ℕ)
      → let s = rw_run rwlock n iters inc ts (rw_start rwlock) in
        ((u : ℕ) → u < n → (s.pc u ≡ finished) × (s.i u ≡ iters))
        → s.shared_var ≡ u64 (n * iters * inc)
  rw_counts ts returned =
      let s = rw_run rwlock n iters inc ts (rw_start rwlock) in
      let good = rw_run-Well ts (rw_start rwlock) start-Well in
      good.summed
      ∙ ap (added inc) (
          total-all n iters (made inc s.pc s.i) (λ u l.
            let at = ap increments_made (returned u l).0 in
            let i_is = (returned u l).1 in omega (arith, at, i_is)))

  -- If the lock does what its documentation says and the rounds are fewer than 2^64, a reader that has
  -- returned has the value of all rounds.
  pub rw_last :
      (ts : List ℕ) (t : ℕ)
      → n ≤ t
      → (rw_run rwlock n iters inc ts (rw_start rwlock)).pc t ≡ finished
      → (rw_run rwlock n iters inc ts (rw_start rwlock)).copy t ≡ u64 (n * iters * inc)
  rw_last ts t l e = (rw_run-Well ts (rw_start rwlock) start-Well).last t l e
