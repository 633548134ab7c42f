-- ===== src/RwLock/Tests.antt =====
-- A mutex as the lock of both, one writer of one round and a reader, and the theorems there.
use mathlib.Core.Path.{fun_ext}
use networking_howto.Mutex.{LockResult, acquired, blocked}
use networking_howto.Prelude.{
  update, ℕ, zero, suc, ◌<◌, ◌*◌, ◌≡◌, ◌≢◌, Option, none, some, List, [], ◌∷◌, if◌then◌else◌, ◌==◌,
  ==_iff, Bool-cases, inl, inr, u64, refl, sym, ◌∙◌, false, arith,
}
use networking_howto.RwLock.{RwLock, finished, rw_run, rw_at, rw_start}
use networking_howto.RwLock.Invariant.{Hold, nothing, shared, exclusive, held_at, RwLaws}
use networking_howto.RwLock.Safety.{rw_excludes, rw_counts, rw_last}

abbrev hold_of : Option (ℕ × Hold) → ℕ → Hold
hold_of none u = nothing
hold_of (some (t, h)) u = if u == t then h else nothing

abbrev take_as : Hold → ℕ → Option (ℕ × Hold) → LockResult (Option (ℕ × Hold))
take_as h t none = acquired (some (t, h))
take_as h t (some u) = blocked

abbrev one_lock : RwLock
one_lock = record {
  State = Option (ℕ × Hold);
  initializer = none;
  wrlock = take_as exclusive;
  rdlock = take_as shared;
  unlock = λ t m. some none;
}

taken_as :
    (h : Hold) (t : ℕ) (m m' : Option (ℕ × Hold))
    → take_as h t m ≡ acquired m'
    → ((u : ℕ) → hold_of m u ≡ nothing) × (hold_of m' ≡ update (hold_of m) t h)
taken_as h t none m' e =
    let m_is : ◌≡◌ {A = Option (ℕ × Hold)} m' (some (t, h)) = cc in rw m_is (λ u. refl, refl)
taken_as h t (some u) m' e = absurd (cc)

given_back :
    (t : ℕ) (m : Option (ℕ × Hold))
    → hold_of m t ≢ nothing
    → hold_of none ≡ update (hold_of m) t nothing
given_back t none holding = absurd (holding refl)
given_back t (some (u, h)) holding = fun_ext (λ v. elim (Bool-cases (v == t)) [
  | inl e ↦ rw e refl
  | inr e ↦ rw e (elim (Bool-cases (v == u)) [
    | inl e' ↦ absurd (holding (other v ((==_iff v u).0 e') e))
    | inr e' ↦ rw e' refl
  ])
])
  where
    other : (v : ℕ) → v ≡ u → (v == t) ≡ false → hold_of (some (u, h)) t ≡ nothing
    other v same e = elim (Bool-cases (t == u)) [
      | inl e' ↦
          absurd (let t_is = (==_iff t u).0 e' in let both = (==_iff v t).1 (same ∙ sym t_is) in cc)
      | inr e' ↦ rw e' refl
    ]

freed :
    (t : ℕ) (m m' : Option (ℕ × Hold))
    → hold_of m t ≢ nothing
    → (◌≡◌ {A = Option (Option (ℕ × Hold))} (some none) (some m'))
    → hold_of m' ≡ update (hold_of m) t nothing
freed t m m' holding e =
    let m_is : ◌≡◌ {A = Option (ℕ × Hold)} m' none = cc in rw m_is (given_back t m holding)

is_free : nothing ≢ exclusive
is_free e = cc

abbrev one_lock_laws : RwLaws one_lock
one_lock_laws = record {
  holds = hold_of;
  free_at_first = λ t. refl;
  wrlock_acquired = taken_as exclusive;
  rdlock_acquired = λ t m m' e.
      let (free, taken) = taken_as shared t m m' e in (λ u h. is_free (sym (free u) ∙ h), taken);
  unlock_frees = freed;
}

-- The writer's round, and then a copy.
abbrev round_and_copy : List ℕ
round_and_copy = 0 ∷ 1 ∷ 0 ∷ 0 ∷ 1 ∷ 0 ∷ 1 ∷ 1 ∷ 1 ∷ []

-- The writer is about to load, and the reader was turned away.
abbrev writer_inside : List ℕ
writer_inside = 0 ∷ 1 ∷ []

rw_excludes_example :
    held_at ((rw_run one_lock 1 1 5 writer_inside (rw_start one_lock)).pc 1) ≡ nothing
unfolding rw_run rw_at
rw_excludes_example =
    rw_excludes one_lock one_lock_laws 1 1 5 (omega arith) writer_inside 0 1 (λ e. omega (arith, e))
      refl

-- The writer makes its round and returns.
abbrev round_made : List ℕ
round_made = 0 ∷ 0 ∷ 0 ∷ 0 ∷ 0 ∷ []

writer_returned :
    (u : ℕ)
    → u < 1
    → let s = rw_run one_lock 1 1 5 round_made (rw_start one_lock) in
      (s.pc u ≡ finished) × (s.i u ≡ 1)
unfolding rw_run rw_at
writer_returned zero l = (refl, refl)
writer_returned (suc u) l = absurd (omega (arith, l))

rw_counts_example :
    (rw_run one_lock 1 1 5 round_made (rw_start one_lock)).shared_var ≡ u64 (1 * 1 * 5)
rw_counts_example = rw_counts one_lock one_lock_laws 1 1 5 (omega arith) round_made writer_returned

copied_last : (rw_run one_lock 1 1 5 round_and_copy (rw_start one_lock)).copy 1 ≡ 5
unfolding rw_run rw_at
copied_last = rw_last one_lock one_lock_laws 1 1 5 (omega arith) round_and_copy 1 (omega arith) refl
