-- ===== src/Mutex/Plain.antt =====
-- A lock of which the documentation holds.
use networking_howto.Prelude.{ℕ, ◌≡◌, Option, none, some, refl}
use networking_howto.Mutex.{LockResult, acquired, blocked, Mutex, MutexLaws}

-- A mutex that is its owner, or nobody's.
abbrev pub take_lock : ℕ → Option ℕ → LockResult (Option ℕ)
take_lock t none = acquired (some t)
take_lock t (some u) = blocked

abbrev pub plain_mutex : Mutex
plain_mutex = record {
  State = Option ℕ;
  initializer = none;
  lock = take_lock;
  unlock = λ t m. some none;
}

pub plain_taken :
    (t : ℕ) (m m' : Option ℕ)
    → take_lock t m ≡ acquired m'
    → (◌≡◌ {A = Option ℕ} m none) × (m' ≡ some t)
plain_taken t none m' e = (refl, cc)
plain_taken t (some u) m' e = absurd (cc)

pub plain_freed :
    (t : ℕ) (m m' : Option ℕ)
    → m ≡ some t
    → (◌≡◌ {A = Option (Option ℕ)} (some none) (some m'))
    → (◌≡◌ {A = Option ℕ} m' none)
plain_freed t m m' held e = cc

abbrev pub plain_laws : MutexLaws plain_mutex
plain_laws = record {
  owner = λ m. m;
  free_at_first = refl;
  lock_acquired = plain_taken;
  unlock_frees = plain_freed;
}
