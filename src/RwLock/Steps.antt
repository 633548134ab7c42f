-- ===== src/RwLock/Steps.antt =====
-- The steps of the threads of 03_readers_writers/mutex.c and rwlock.c.
use mathlib.Core.Path.{fun_ext}
use networking_howto.Mutex.{LockResult, acquired, blocked, refused}
use networking_howto.Prelude.{
  each, total, total_change, update, update_self, update_ne, ℕ, ◌+◌, ◌*◌, ◌^◌, ◌≤◌, ◌<◌, ◌≡◌, ◌≢◌,
  true, Option, none, some, arith, refl, sym, ap, ◌∙◌, subst, u64,
}
use networking_howto.RwLock.{
  RwLock, RwPc, at_loop, add_loading, add_storing, add_unlocking, copying, copy_unlocking, finished,
  Sharing, move_to, rw_acquired, rw_released, stop_value,
}
use networking_howto.RwLock.Invariant.{
  Hold, nothing, RwLaws, held_at, increments_made, open_round, IsLoaded, added, made, RwInv,
  step-RwInv,
}

module _ (inc : ℕ) (rwlock : RwLock) (laws : RwLaws rwlock) (n iters : ℕ)
    (few : iters < 2 ^ 64) where
  abbrev pub Fine : Sharing rwlock → Type 0
  Fine s = RwInv inc rwlock laws n iters few s

  exit-Fine : (s : Sharing rwlock) → Fine s → Fine (record s { exited = true })
  exit-Fine s good = record {
    held = good.held;
    alone = good.alone;
    writers = good.writers;
    loaded = good.loaded;
    bounded = good.bounded;
    summed = good.summed;
    copied = good.copied;
    last = good.last;
  }

  holds_of : (s : Sharing rwlock) (u : ℕ) → Fine s → laws.holds s.lock_state u ≡ held_at (s.pc u)
  holds_of s u good = ap (λ f. f u) good.held

  pub wrlock-Fine :
      (t : ℕ) (s : Sharing rwlock) (result : LockResult rwlock.State)
      → Fine s
      → t < n
      → s.pc t ≡ at_loop
      → s.i t < iters
      → rwlock.wrlock t s.lock_state ≡ result
      → Fine (rw_acquired rwlock t s add_loading result)
  wrlock-Fine t s (acquired m) good l at more e =
      let (all_free, taken) = laws.wrlock_acquired t s.lock_state m e in
      let made_at = ap increments_made at in
      let free_at = λ (u : ℕ). sym (holds_of s u good) ∙ all_free u in
      step-RwInv inc rwlock laws n iters few s t m s.i add_loading good taken
        (λ h. (l, λ u ne. free_at u)) (λ u ne h. absurd (let no_one = free_at u in cc)) tt
        (λ u ne. refl) (omega (arith, more)) (omega (arith, made_at)) (λ h h'. absurd (cc))
  wrlock-Fine t s blocked good l at more e = good
  wrlock-Fine t s refused good l at more e = exit-Fine s good

  pub rdlock-Fine :
      (t : ℕ) (s : Sharing rwlock) (result : LockResult rwlock.State)
      → Fine s
      → s.pc t ≡ at_loop
      → rwlock.rdlock t s.lock_state ≡ result
      → Fine (rw_acquired rwlock t s copying result)
  rdlock-Fine t s (acquired m) good at e =
      let (no_writer, taken) = laws.rdlock_acquired t s.lock_state m e in
      let made_at = ap increments_made at in
      let open_at = ap open_round at in
      let bound = good.bounded t in
      step-RwInv inc rwlock laws n iters few s t m s.i copying good taken (λ h. absurd (cc))
        (λ u ne h. absurd (no_writer u (holds_of s u good ∙ h))) tt (λ u ne. refl)
        (omega (arith, bound, open_at)) (omega (arith, made_at)) (λ h h'. absurd (cc))
  rdlock-Fine t s blocked good at e = good
  rdlock-Fine t s refused good at e = exit-Fine s good

  pub unlock-Fine :
      (t : ℕ) (s : Sharing rwlock) (next_i : ℕ) (p : RwPc) (result : Option rwlock.State)
      → Fine s
      → held_at (s.pc t) ≢ nothing
      → held_at p ≡ nothing
      → IsLoaded s.shared_var p
      → next_i + open_round p ≤ iters
      → next_i + increments_made p ≡ s.i t + increments_made (s.pc t)
      → (n ≤ t → p ≡ finished → s.copy t ≡ stop_value rwlock n iters inc)
      → rwlock.unlock t s.lock_state ≡ result
      → Fine (rw_released rwlock t s next_i p result)
  unlock-Fine t s next_i p (some m) good holding free loaded bound same last e =
      let released =
        laws.unlock_frees t s.lock_state m (λ h. holding (sym (holds_of s t good) ∙ h)) e in
      let here = update_self s.i t next_i in
      step-RwInv inc rwlock laws n iters few s t m (update s.i t next_i) p good
        (released ∙ ap (update (laws.holds s.lock_state) t) (sym free)) (λ h. absurd (cc))
        (λ u ne h. free) loaded (λ u ne. update_ne s.i t next_i u ne) (omega (arith, here, bound))
        (omega (arith, here, same)) last
  unlock-Fine t s next_i p none good holding free loaded bound same last e = exit-Fine s good

  -- The store of a writer.
  pub store-Fine :
      (t value : ℕ) (s : Sharing rwlock)
      → Fine s
      → s.pc t ≡ add_storing value
      → Fine (move_to rwlock (record s { shared_var = u64 (value + inc) }) t add_unlocking)
  store-Fine t value s good at =
      let there = ap held_at at in
      let l = good.writers t there in
      let is_var = subst (IsLoaded s.shared_var) at (good.loaded t) in
      let change =
        total_change n t (made inc (update s.pc t add_unlocking) s.i) (made inc s.pc s.i) l
          (λ u ne. ap (λ q. s.i u + increments_made q) (update_ne s.pc t add_unlocking u ne)) in
      let here = ap increments_made (update_self s.pc t add_unlocking) in
      let before = ap increments_made at in
      let more : total n (made inc (update s.pc t add_unlocking) s.i)
          ≡ total n (made inc s.pc s.i) + 1 =
        omega (arith, change, here, before) in
      record {
        held = good.held ∙ holds_same;
        alone = λ a b ne e. same_held b ∙ good.alone a b ne (sym (same_held a) ∙ e);
        writers = λ u e. good.writers u (sym (same_held u) ∙ e);
        loaded =
            each (λ u q. IsLoaded (u64 (value + inc)) q) s.pc t add_unlocking tt
              (λ u ne. no_load u (s.pc u) (good.alone t u (λ h. ne (sym h)) there));
        bounded =
            each (λ u q. s.i u + open_round q ≤ iters) s.pc t add_unlocking
              (let b = good.bounded t in
                let open_at = ap open_round at in omega (arith, b, open_at))
              (λ u ne. good.bounded u);
        summed =
            let sum = good.summed in
            let product : (total n (made inc s.pc s.i) + 1) * inc
                ≡ total n (made inc s.pc s.i) * inc + inc =
              grind arith in
            next_sum (total n (made inc s.pc s.i)) sum is_var product ∙ ap (added inc) (sym more);
        copied = λ u. let (k, small, e) = good.copied u in (k, omega (arith, small, more), e);
        last =
            each (λ u q. n ≤ u → q ≡ finished → s.copy u ≡ stop_value rwlock n iters inc) s.pc t
              add_unlocking (λ h e. absurd (cc)) (λ u ne. good.last u);
      }
    where
      same_held : (u : ℕ) → held_at (update s.pc t add_unlocking u) ≡ held_at (s.pc u)
      same_held =
          each (λ u q. held_at q ≡ held_at (s.pc u)) s.pc t add_unlocking (sym (ap held_at at))
            (λ u ne. refl)

      holds_same :
          ◌≡◌ {A = ℕ → Hold} (λ u. held_at (s.pc u)) (λ u. held_at (update s.pc t add_unlocking u))
      holds_same = fun_ext (λ u. sym (same_held u))

      no_load : (u : ℕ) (q : RwPc) → held_at q ≡ nothing → IsLoaded (u64 (value + inc)) q
      no_load u at_loop e = tt
      no_load u finished e = tt
      no_load u add_loading e = tt
      no_load u (add_storing v) e = absurd (cc)
      no_load u add_unlocking e = tt
      no_load u copying e = tt
      no_load u copy_unlocking e = tt

      next_sum :
          (k : ℕ)
          → s.shared_var ≡ u64 (k * inc)
          → value ≡ s.shared_var
          → (k + 1) * inc ≡ k * inc + inc
          → u64 (value + inc) ≡ u64 ((k + 1) * inc)
      next_sum k a b c = omega (arith, a, b, c)
