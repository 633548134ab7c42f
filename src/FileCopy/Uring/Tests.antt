-- ===== src/FileCopy/Uring/Tests.antt =====
-- The copy on a kernel that carries out a request when it is asked for its completion.
mod Device
use networking_howto.Prelude.{
  update, update_self, update_ne, ℕ, zero, suc, ◌+◌, ◌-◌, ◌≤◌, ◌<◌, ◌≡◌, ◌≢◌, inl, inr, true, false,
  Option, none, some, if◌then◌else◌, ltb, ltb→lt, lt→ltb, Bool-cases, arith, refl, sym, ap, ◌∙◌,
  subst, ℕ_discrete,
}
use mathlib.Core.Option.{some-injective}
use networking_howto.Prelude.Ends.{Ends}
use networking_howto.Fileshare.Posix.{Posix}
use networking_howto.FileCopy.Uring.{Cqe, Ring, queue_size, fresh_status, copy_file}
use networking_howto.FileCopy.Uring.Laws.{
  Fresh, Request, reading, writing, ReadsInto, WritesAt, Steady, RingLaws, FullTransfers,
}
use networking_howto.FileCopy.Uring.Completions.{Failed}
use networking_howto.FileCopy.Uring.WholeFile.{IsCopied, copy_file_copies}
use networking_howto.FileCopy.Uring.Tests.Device.{
  Kernel, kernel_os, source_byte, some_request, carry_out, nbytes_of, completion, peeked, found,
  kernel_ring, some_request-some, some_request-none,
}

Steady-carry :
    (t : ℕ) (r : Request) (w : Kernel)
    → w.in_flight t ≡ some r
    → Steady (λ k. k.in_flight) (λ k. k.content) (λ k. k.buffer) w (carry_out t r w)
Steady-carry t (reading fd n o b) w at = (
  λ b' j clear. elim (ℕ_discrete b' b) [
    | yes e ↦ absurd (clear t (subst (ReadsInto b') (sym at) (sym e)))
    | no ne ↦ ap (λ f. f j) (update_ne w.buffer b (λ j. source_byte (o + j)) b' ne)
  ],
  λ i clear. refl,
)
Steady-carry t (writing fd n o b) w at = (
  λ b' j clear. refl,
  λ i clear. elim (Bool-cases (ltb i o)) [
    | inl before ↦ rw before refl
    | inr from ↦ rw from (elim (Bool-cases (ltb i (o + n))) [
      | inl within ↦
          absurd (clear t (subst (WritesAt i) (sym at) (not_before from, ltb→lt _ _ within)))
      | inr past ↦ rw past refl
    ])
  ],
)
  where
    not_before : {i : ℕ} → ltb i o ≡ false → o ≤ i
    not_before h = ground arith

-- What a peek has found, and done.
peek_inv :
    (w : Kernel) (c : Cqe)
    → Fresh (λ k. k.unseen) (λ k. found k k.unseen) w c
    → (r : Request) × (w.in_flight c.user_data ≡ some r)
      × (c.res ≡ some (nbytes_of r))
      × ((found w w.unseen).1 ≡ record (carry_out c.user_data r w) { unseen = some c })
peek_inv w c (e, clear) =
    subst
      (λ u.
        (found w u).0 ≡ some c
        → (r : Request) × (w.in_flight c.user_data ≡ some r)
          × (c.res ≡ some (nbytes_of r))
          × ((found w u).1 ≡ record (carry_out c.user_data r w) { unseen = some c }))
      (sym clear) (go (some_request queue_size w.in_flight) refl) e
  where
    go :
        (o : Option (ℕ × Request))
        → some_request queue_size w.in_flight ≡ o
        → (peeked w o).0 ≡ some c
        → (r : Request) × (w.in_flight c.user_data ≡ some r)
          × (c.res ≡ some (nbytes_of r))
          × ((peeked w o).1 ≡ record (carry_out c.user_data r w) { unseen = some c })
    go none at h = absurd (cc)
    go (some (t, r)) at h =
        let same : completion t r ≡ c = some-injective _ _ h in
        (
          r,
          ap w.in_flight (ap (λ q. q.user_data) (sym same))
              ∙ some_request-some queue_size w.in_flight t r at,
          ap (λ q. q.res) (sym same),
          ap (λ q. record (carry_out q.user_data r w) { unseen = some q }) same,
        )

kernel_peek_some :
    (w : Kernel) (c : Cqe)
    → Fresh (λ k. k.unseen) (λ k. found k k.unseen) w c
    → (w.in_flight c.user_data ≢ none)
      × ((found w w.unseen).1.unseen ≡ some c)
      × ((found w w.unseen).1.in_flight ≡ update w.in_flight c.user_data none)
      × Steady (λ k. k.in_flight) (λ k. k.content) (λ k. k.buffer) w (found w w.unseen).1
kernel_peek_some w c e =
    let (r, at, res, next) = peek_inv w c e in
    (
      λ h. absurd (cc),
      ap (λ k. k.unseen) next,
      ap (λ k. k.in_flight) next ∙ taken r,
      subst (Steady (λ k. k.in_flight) (λ k. k.content) (λ k. k.buffer) w) (sym next)
          (Steady-carry c.user_data r w at),
    )
  where
    taken :
        (r : Request) → (carry_out c.user_data r w).in_flight ≡ update w.in_flight c.user_data none
    taken (reading fd n o b) = refl
    taken (writing fd n o b) = refl

kernel_read_done :
    (w : Kernel) (c : Cqe) (n o b k : ℕ)
    → Fresh (λ k. k.unseen) (λ k. found k k.unseen) w c
    → w.in_flight c.user_data ≡ some (reading (some 3) n o b)
    → c.res ≡ some k
    → (j : ℕ) → j < k
    → (found w w.unseen).1.buffer b j ≡ source_byte (o + j)
kernel_read_done w c n o b k e at res j l =
    let (r, at', res', next) = peek_inv w c e in
    let same : r ≡ reading (some 3) n o b = cc in
    ap (λ v. v.buffer b j)
      (next ∙ ap (λ q. record (carry_out c.user_data q w) { unseen = some c }) same)
    ∙ ap (λ f. f j) (update_self w.buffer b (λ j. source_byte (o + j)))

kernel_write_done :
    (w : Kernel) (c : Cqe) (n o b k : ℕ)
    → Fresh (λ k. k.unseen) (λ k. found k k.unseen) w c
    → w.in_flight c.user_data ≡ some (writing (some 4) n o b)
    → c.res ≡ some k
    → (j : ℕ) → j < k
    → (found w w.unseen).1.content (o + j) ≡ w.buffer b j
kernel_write_done w c n o b k e at res j l =
    let (r, at', res', next) = peek_inv w c e in
    let same : r ≡ writing (some 4) n o b = cc in
    let count : some n ≡ some k = ap (λ q. some (nbytes_of q)) (sym same) ∙ sym res' ∙ res in
    let n_is : n ≡ k = some-injective _ _ count in
    ap (λ v. v.content (o + j))
      (next ∙ ap (λ q. record (carry_out c.user_data q w) { unseen = some c }) same)
    ∙ there (not_lt j) (lt→ltb (o + j) (o + n) (omega (arith, n_is, l)))
    ∙ ap (w.buffer b) (shift j)
  where
    shift : (j : ℕ) → o + j - o ≡ j
    shift j = omega arith

    not_lt : (j : ℕ) → ltb (o + j) o ≡ false
    not_lt j = ground arith

    there :
        ltb (o + j) o ≡ false
        → ltb (o + j) (o + n) ≡ true
        → (if ltb (o + j) o
            then w.content (o + j)
            else if ltb (o + j) (o + n)
            then w.buffer b (o + j - o)
            else w.content (o + j))
          ≡ w.buffer b (o + j - o)
    there a b' = rw (a, b') refl

kernel_peek_none :
    (w : Kernel) → (found w w.unseen).0 ≡ none → (w.unseen ≡ none) × ((found w w.unseen).1 ≡ w)
kernel_peek_none w e = at w.unseen e
  where
    go : (o : Option (ℕ × Request)) → (peeked w o).0 ≡ none → (peeked w o).1 ≡ w
    go none h = refl
    go (some (t, r)) h = absurd (cc)

    at : (u : Option Cqe) → (found w u).0 ≡ none → (u ≡ none) × ((found w u).1 ≡ w)
    at none h = (refl, go (some_request queue_size w.in_flight) h)
    at (some c) h = absurd (cc)

kernel_waits :
    (t : ℕ) (w : Kernel) → t < queue_size → w.in_flight t ≢ none → (found w w.unseen).0 ≢ none
kernel_waits t w l busy e = at w.unseen e
  where
    go :
        (o : Option (ℕ × Request)) → some_request queue_size w.in_flight ≡ o → (peeked w o).0 ≢ none
    go none at h = busy (some_request-none queue_size w.in_flight t l at)
    go (some (u, r)) at h = cc

    at : (u : Option Cqe) → (found w u).0 ≢ none
    at none h = go (some_request queue_size w.in_flight) refl h
    at (some c) h = cc

same-Steady : (w : Kernel) → Steady (λ k. k.in_flight) (λ k. k.content) (λ k. k.buffer) w w
same-Steady w = (λ b j clear. refl, λ i clear. refl)

kernel_again :
    (w : Kernel) (c : Cqe)
    → w.unseen ≡ some c
    → ((found w w.unseen).0 ≡ some c)
      × ((found w w.unseen).1.unseen ≡ some c)
      × ((found w w.unseen).1.in_flight ≡ w.in_flight)
      × Steady (λ k. k.in_flight) (λ k. k.content) (λ k. k.buffer) w (found w w.unseen).1
kernel_again w c e = rw e (refl, refl, refl, same-Steady w)

abbrev kernel_laws : RingLaws kernel_os kernel_ring (some 3) (some 4) source_byte
kernel_laws = record {
  in_flight = λ k. k.in_flight;
  content = λ k. k.content;
  buffer = λ k. k.buffer;
  unseen = λ k. k.unseen;
  prep_read = λ fd n o b t w l free apart. (refl, (λ b' j clear. refl, λ i clear. refl));
  prep_write = λ fd n o b t w l free apart. (refl, (λ b' j clear. refl, λ i clear. refl));
  submit_keeps = λ n w. (refl, same-Steady w);
  submit_waits = kernel_waits;
  prep_read_unseen = λ fd n o b t w. refl;
  prep_write_unseen = λ fd n o b t w. refl;
  submit_unseen = λ n w. refl;
  seen_some = λ c w e. (refl, refl, same-Steady w);
  seen_none = λ w. (refl, refl, same-Steady w);
  peek_again = kernel_again;
  peek_none = λ w e.
      let (clear, same) = kernel_peek_none w e in
      (
        ap (λ k. k.unseen) same ∙ clear,
        ap (λ k. k.in_flight) same,
        subst (Steady (λ k. k.in_flight) (λ k. k.content) (λ k. k.buffer) w) (sym same)
            (same-Steady w),
      );
  peek_some = kernel_peek_some;
  read_done = kernel_read_done;
  write_done = kernel_write_done;
}

kernel_full : FullTransfers kernel_os kernel_ring (some 3) (some 4) source_byte kernel_laws 5000
kernel_full = record {
  full_read = λ w c n o b k e at res.
      let (r, at', res', next) = peek_inv w c e in
      let same : r ≡ reading (some 3) n o b = cc in
      let n_is : n ≡ k =
        some-injective _ _ (ap (λ q. some (nbytes_of q)) (sym same) ∙ sym res' ∙ res) in
      inl (omega (arith, n_is));
  full_write = λ w c n o b k e at res.
      let (r, at', res', next) = peek_inv w c e in
      let same : r ≡ writing (some 4) n o b = cc in
      let n_is : n ≡ k =
        some-injective _ _ (ap (λ q. some (nbytes_of q)) (sym same) ∙ sym res' ∙ res) in
      omega (arith, n_is);
}

abbrev at_rest : Kernel
at_rest = record { in_flight = λ t. none; content = λ i. 0; buffer = λ b j. 0; unseen = none }

copy_file_copies_example :
    Ends
      (Failed kernel_os kernel_ring)
      (IsCopied (λ k. k.content) source_byte 5000)
      (copy_file kernel_os kernel_ring 5 5 (fresh_status 5000 (some 3) (some 4)) at_rest)
copy_file_copies_example =
    copy_file_copies kernel_os kernel_ring (some 3) (some 4) source_byte kernel_laws 5000
      (omega arith) kernel_full at_rest 5 5 (λ t. refl) refl (omega arith) (omega arith)
