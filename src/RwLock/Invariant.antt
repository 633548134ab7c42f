-- ===== src/RwLock/Invariant.antt =====
-- What holds of the threads of 03_readers_writers/mutex.c and rwlock.c between two steps.
use mathlib.Core.Path.{fun_ext}
use networking_howto.Mutex.{acquired}
use networking_howto.Prelude.{
  each, total, total_same, update, update_self, update_ne, ℕ, ◌+◌, ◌*◌, ◌^◌, ◌≤◌, ◌<◌, ◌≡◌, ◌≢◌,
  some, ◌==◌, Bool-cases, inl, inr, arith, refl, sym, ap, ◌∙◌, u64, ℕ_discrete,
}
use networking_howto.RwLock.{
  RwLock, RwPc, at_loop, add_loading, add_storing, add_unlocking, copying, copy_unlocking, finished,
  Sharing, move_to, stop_value,
}

pub data Hold : Type 0 where
  nothing : Hold
  shared : Hold
  exclusive : Hold

-- What the documentation says: a writer gets the lock when nobody holds it, a reader when no writer
-- does, and each keeps it until it gives it back.
pub record RwLaws (rwlock : RwLock) : Type 0 where
  pub holds : rwlock.State → ℕ → Hold
  pub free_at_first : (t : ℕ) → holds rwlock.initializer t ≡ nothing
  pub wrlock_acquired :
      (t : ℕ) (m m' : rwlock.State)
      → rwlock.wrlock t m ≡ acquired m'
      → ((u : ℕ) → holds m u ≡ nothing) × (holds m' ≡ update (holds m) t exclusive)
  pub rdlock_acquired :
      (t : ℕ) (m m' : rwlock.State)
      → rwlock.rdlock t m ≡ acquired m'
      → ((u : ℕ) → holds m u ≢ exclusive) × (holds m' ≡ update (holds m) t shared)
  pub unlock_frees :
      (t : ℕ) (m m' : rwlock.State)
      → holds m t ≢ nothing
      → rwlock.unlock t m ≡ some m'
      → holds m' ≡ update (holds m) t nothing

-- What a thread holds where it stands.
abbrev pub held_at : RwPc → Hold
held_at at_loop = nothing
held_at finished = nothing
held_at copying = shared
held_at copy_unlocking = shared
held_at p = exclusive

abbrev pub increments_made : RwPc → ℕ
increments_made add_unlocking = 1
increments_made p = 0

abbrev pub open_round : RwPc → ℕ
open_round add_loading = 1
open_round (add_storing v) = 1
open_round add_unlocking = 1
open_round p = 0

-- A value that a writer has loaded is still that of the variable.
abbrev pub IsLoaded : (var : ℕ) → RwPc → Type 0
IsLoaded var (add_storing v) = v ≡ var
IsLoaded var p = Unit

module _ (inc : ℕ) where
  abbrev pub added : (rounds : ℕ) → ℕ
  added rounds = u64 (rounds * inc)

  -- A value that the variable had after at most `rounds` rounds.
  abbrev pub Earlier : (rounds copy : ℕ) → Type 0
  Earlier rounds copy = (k : ℕ) × (k ≤ rounds) × (copy ≡ added k)

  abbrev pub made : (ℕ → RwPc) → (ℕ → ℕ) → ℕ → ℕ
  made pc i u = i u + increments_made (pc u)

  module _ (rwlock : RwLock) (laws : RwLaws rwlock) (n iters : ℕ) (few : iters < 2 ^ 64) where
    pub record RwInv (s : Sharing rwlock) : Type 0 where
      pub held : laws.holds s.lock_state ≡ (λ t. held_at (s.pc t))
      pub alone : (t u : ℕ) → t ≢ u → held_at (s.pc t) ≡ exclusive → held_at (s.pc u) ≡ nothing
      pub writers : (t : ℕ) → held_at (s.pc t) ≡ exclusive → t < n
      pub loaded : (t : ℕ) → IsLoaded s.shared_var (s.pc t)
      pub bounded : (t : ℕ) → s.i t + open_round (s.pc t) ≤ iters
      pub summed : s.shared_var ≡ added (total n (made s.pc s.i))
      pub copied : (t : ℕ) → Earlier (total n (made s.pc s.i)) (s.copy t)
      pub last : (t : ℕ) → n ≤ t → s.pc t ≡ finished → s.copy t ≡ stop_value rwlock n iters inc

    -- A step of thread `t` that changes neither the variable nor the copies, nor how many rounds have
    -- been added.
    pub step-RwInv :
        (s : Sharing rwlock) (t : ℕ) (m : rwlock.State) (i : ℕ → ℕ) (p : RwPc)
        → RwInv s
        → laws.holds m ≡ update (laws.holds s.lock_state) t (held_at p)
        → (held_at p ≡ exclusive → (t < n) × ((u : ℕ) → u ≢ t → held_at (s.pc u) ≡ nothing))
        → ((u : ℕ) → u ≢ t → held_at (s.pc u) ≡ exclusive → held_at p ≡ nothing)
        → IsLoaded s.shared_var p
        → ((u : ℕ) → u ≢ t → i u ≡ s.i u)
        → i t + open_round p ≤ iters
        → i t + increments_made p ≡ s.i t + increments_made (s.pc t)
        → (n ≤ t → p ≡ finished → s.copy t ≡ stop_value rwlock n iters inc)
        → RwInv (move_to rwlock (record s { lock_state = m; i = i }) t p)
    step-RwInv s t m i p good holds excl free loaded others bound same last =
        let sums : total n (made (update s.pc t p) i) ≡ total n (made s.pc s.i) =
          total_same n _ _ (λ u l.
            each (λ v q. i v + increments_made q ≡ s.i v + increments_made (s.pc v)) s.pc t p same
              (λ v ne. ap (λ j. j + increments_made (s.pc v)) (others v ne)) u) in
        record {
          held =
              holds
              ∙ ap (λ f. update f t (held_at p)) good.held
              ∙ fun_ext (λ u. elim (Bool-cases (u == t)) [ inl e ↦ rw e refl | inr e ↦ rw e refl ]);
          alone =
              each
                (λ a q.
                  (b : ℕ) → a ≢ b → held_at q ≡ exclusive → held_at (update s.pc t p b) ≡ nothing)
                s.pc t p
                (λ b ne e.
                  ap held_at (update_ne s.pc t p b (λ h. ne (sym h)))
                  ∙ (excl e).1 b (λ h. ne (sym h)))
                (λ a ne b ne' e.
                  each (λ b q. a ≢ b → held_at q ≡ nothing) s.pc t p (λ ne2. free a ne e)
                    (λ b nb ne2. good.alone a b ne2 e) b ne');
          writers =
              each (λ u q. held_at q ≡ exclusive → u < n) s.pc t p (λ e. (excl e).0)
                (λ u ne. good.writers u);
          loaded = each (λ u q. IsLoaded s.shared_var q) s.pc t p loaded (λ u ne. good.loaded u);
          bounded =
              each (λ u q. i u + open_round q ≤ iters) s.pc t p bound
                (λ u ne.
                  let there = others u ne in let old = good.bounded u in omega (arith, there, old));
          summed = good.summed ∙ ap added (sym sums);
          copied = λ u. let (k, small, e) = good.copied u in (k, omega (arith, small, sums), e);
          last =
              each (λ u q. n ≤ u → q ≡ finished → s.copy u ≡ stop_value rwlock n iters inc) s.pc t p
                last (λ u ne. good.last u);
        }

    -- A step within the critical section: what is held stays.
    pub within-RwInv :
        (s : Sharing rwlock) (t : ℕ) (p p' : RwPc)
        → RwInv s
        → s.pc t ≡ p
        → held_at p ≡ held_at p'
        → IsLoaded s.shared_var p'
        → open_round p' ≡ open_round p
        → increments_made p' ≡ increments_made p
        → (n ≤ t → p' ≡ finished → s.copy t ≡ stop_value rwlock n iters inc)
        → RwInv (move_to rwlock s t p')
    within-RwInv s t p p' good at same loaded bound made_same more =
        let there = ap held_at at in
        let b = good.bounded t in
        let b_at = ap open_round at in
        let m_at = ap increments_made at in
        step-RwInv s t s.lock_state s.i p' good
          (good.held
            ∙ fun_ext (λ u. elim (ℕ_discrete u t) [
              | yes e ↦
                  ap (λ v. held_at (s.pc v)) e
                  ∙ there
                  ∙ same
                  ∙ sym (
                      ap (update (λ v. held_at (s.pc v)) t (held_at p')) e
                      ∙ update_self (λ v. held_at (s.pc v)) t (held_at p'))
              | no ne ↦ sym (update_ne (λ v. held_at (s.pc v)) t (held_at p') u ne)
            ])
            ∙ ap (λ f. update f t (held_at p')) (sym good.held))
          (λ e. (
            good.writers t (there ∙ same ∙ e),
            λ u ne. good.alone t u (λ h. ne (sym h)) (there ∙ same ∙ e),
          ))
          (λ u ne e. sym same ∙ sym there ∙ good.alone u t ne e) loaded (λ u ne. refl)
          (omega (arith, b, b_at, bound)) (omega (arith, m_at, made_same)) more
