-- ===== src/Futex/Ownership.antt =====
-- Who owns the mutex of futex.c: its state is not M_ULOCKD exactly when one thread owns it.
use networking_howto.Prelude.{
  update, update_self, update_ne, each, ℕ, ◌<◌, ◌≡◌, ◌≢◌, Bool, true, false, refl, sym, ◌∙◌, ap,
  ℕ_discrete,
}
use networking_howto.Futex.{Pc, outside, exchanging, to_wait, asleep, inside, to_store, to_wake}

-- In the critical section, or between the two accesses of `unlock`.
abbrev pub owns : Pc → Bool
owns (inside c) = true
owns to_store = true
owns outside = false
owns exchanging = false
owns to_wait = false
owns asleep = false
owns to_wake = false

module _ (n : ℕ) where
  pub record Owned (mutex : ℕ) (pc : ℕ → Pc) : Type 0 where
    pub free : mutex ≡ 0 → (u : ℕ) → u < n → owns (pc u) ≢ true
    pub held : mutex ≢ 0 → (u : ℕ) × (u < n) × (owns (pc u) ≡ true)
    pub alone : (t u : ℕ) → t < n → u < n → owns (pc t) ≡ true → owns (pc u) ≡ true → t ≡ u

  -- A step by which the thread neither comes to own the mutex nor ceases to.
  pub stay-Owned :
      {mutex mutex' : ℕ} {pc : ℕ → Pc} (t : ℕ) (p' : Pc)
      → owns p' ≡ owns (pc t)
      → (mutex' ≡ 0 → mutex ≡ 0)
      → (mutex' ≢ 0 → mutex ≢ 0)
      → Owned mutex pc
      → Owned mutex' (update pc t p')
  stay-Owned {mutex} {mutex'} {pc} t p' same zero_before not_before owned =
      let same_at : (u : ℕ) → owns (update pc t p' u) ≡ owns (pc u) =
        each (λ u p. owns p ≡ owns (pc u)) pc t p' same (λ u ne. refl) in
      record {
        free = λ e u l mine. owned.free (zero_before e) u l (sym (same_at u) ∙ mine);
        held = λ ne. let (u, l, mine) = owned.held (not_before ne) in (u, l, same_at u ∙ mine);
        alone = λ v u l l' mine mine'.
            owned.alone v u l l' (sym (same_at v) ∙ mine) (sym (same_at u) ∙ mine');
      }

  pub acquire-Owned :
      {mutex mutex' : ℕ} {pc : ℕ → Pc} (t : ℕ) (p' : Pc)
      → t < n
      → owns p' ≡ true
      → mutex ≡ 0
      → mutex' ≢ 0
      → Owned mutex pc
      → Owned mutex' (update pc t p')
  acquire-Owned {mutex} {mutex'} {pc} t p' l mine e taken owned =
      let only : (u : ℕ) → u < n → owns (update pc t p' u) ≡ true → u ≡ t = λ u l' his.
        elim (ℕ_discrete u t) [
          | yes here ↦ here
          | no ne ↦ absurd (owned.free e u l' (sym (ap owns (update_ne pc t p' u ne)) ∙ his))
        ] in
      record {
        free = λ e' u l' his. absurd (taken e');
        held = λ ne. (t, l, ap owns (update_self pc t p') ∙ mine);
        alone = λ v u l' l'' his hers. only v l' his ∙ sym (only u l'' hers);
      }

  pub release-Owned :
      {mutex mutex' : ℕ} {pc : ℕ → Pc} (t : ℕ) (p' : Pc)
      → t < n
      → owns p' ≡ false
      → owns (pc t) ≡ true
      → mutex' ≡ 0
      → Owned mutex pc
      → Owned mutex' (update pc t p')
  release-Owned {mutex} {mutex'} {pc} t p' l not_mine mine e owned =
      let nobody : (u : ℕ) → u < n → owns (update pc t p' u) ≢ true = λ u l' his.
        elim (ℕ_discrete u t) [
          | yes here ↦
              let at = ap (update pc t p') here ∙ update_self pc t p' in
              let clash : false ≡ true = sym not_mine ∙ sym (ap owns at) ∙ his in cc
          | no ne ↦ ne (owned.alone u t l' l (sym (ap owns (update_ne pc t p' u ne)) ∙ his) mine)
        ] in
      record {
        free = λ e' u l' his. nobody u l' his;
        held = λ ne. absurd (ne e);
        alone = λ v u l' l'' his hers. absurd (nobody v l' his);
      }
