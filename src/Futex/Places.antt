-- ===== src/Futex/Places.antt =====
-- What the places of `thread_func` of futex.c mean for its counter.
use networking_howto.Prelude.{ℕ, ◌≡◌, ◌≢◌, true, refl}
use networking_howto.Locks.Rounds.{Places}
use networking_howto.Futex.{
  checking, checking_free, checking_wq, loading, storing, unlocking, Pc, outside, exchanging,
  to_wait, asleep, inside, to_store, to_wake,
}
use networking_howto.Futex.Ownership.{owns}

-- A value that was loaded is still that of `var`.
abbrev pub Loaded : ℕ → Pc → Type 0
Loaded var outside = Unit
Loaded var exchanging = Unit
Loaded var to_wait = Unit
Loaded var asleep = Unit
Loaded var (inside checking) = Unit
Loaded var (inside checking_free) = Unit
Loaded var (inside checking_wq) = Unit
Loaded var (inside loading) = Unit
Loaded var (inside (storing value)) = value ≡ var
Loaded var (inside unlocking) = Unit
Loaded var to_store = Unit
Loaded var to_wake = Unit

-- A thread that is not at the loop's test has a round to finish.
abbrev pub bound_of : Pc → ℕ
bound_of outside = 0
bound_of exchanging = 1
bound_of to_wait = 1
bound_of asleep = 1
bound_of (inside c) = 1
bound_of to_store = 1
bound_of to_wake = 1

-- The increment of the round that is not over.
abbrev pub extra : Pc → ℕ
extra outside = 0
extra exchanging = 0
extra to_wait = 0
extra asleep = 0
extra (inside checking) = 0
extra (inside checking_free) = 0
extra (inside checking_wq) = 0
extra (inside loading) = 0
extra (inside (storing value)) = 0
extra (inside unlocking) = 1
extra to_store = 1
extra to_wake = 1

pub Loaded-not_owned : (var : ℕ) (p : Pc) → owns p ≢ true → Loaded var p
Loaded-not_owned var outside out = tt
Loaded-not_owned var exchanging out = tt
Loaded-not_owned var to_wait out = tt
Loaded-not_owned var asleep out = tt
Loaded-not_owned var (inside c) out = absurd (out refl)
Loaded-not_owned var to_store out = tt
Loaded-not_owned var to_wake out = tt

abbrev pub places : Places Pc
places = record {
  Loaded = Loaded;
  bound_of = bound_of;
  extra = extra;
  outside = outside;
  outside_loaded = λ var. tt;
  outside_bound = refl;
  outside_extra = refl;
}
