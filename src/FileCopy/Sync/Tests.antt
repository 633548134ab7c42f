-- ===== src/FileCopy/Sync/Tests.antt =====
-- A copy of a small file, and the theorem about it.
use networking_howto.Prelude.{
  ℕ, zero, suc, ◌≡◌, ◌⊎◌, inl, inr, true, false, none, some, List, [], ◌∷◌, ◌++◌, length, take,
  drop, arith, refl, sym, ap, ◌∙◌,
}
use mathlib.Core.Option.{some-injective}
use networking_howto.Prelude.Ends.{Ends}
use networking_howto.Fileshare.Posix.{Posix}
use networking_howto.FileCopy.Sync.{copy_loop}
use networking_howto.FileCopy.Sync.Copied.{
  CopyLaws, ShortAtEnd, CallFailed, WholeCopy, copy_loop_copies,
}

record Disk : Type 0 where
  rest : List ℕ
  copy : List ℕ

abbrev disk_os : Posix
disk_os = record {
  World = Disk;
  errno = λ w. 0;
  received_sigint = λ w. false;
  write = λ fd buf w. (some (length buf), record w { copy = w.copy ++ buf });
  write_beyond = λ fd count w. (none, w);
  read = λ fd count w. (some (take count w.rest), record w { rest = drop count w.rest });
  pread = λ fd count offset w. (none, w);
  recv = λ fd count waitall w. (none, w);
  pwrite = λ fd buf offset w. (none, w);
  open_read = λ filename w. (some 3, w);
  open_trunc = λ filename w. (some 4, w);
  fstat = λ fd w. (some 3, w);
  fallocate = λ fd size w. (true, w);
  ftruncate = λ fd size w. (true, w);
  fsync = λ fd w. (true, w);
  close = λ fd w. (true, w);
  sigfillset = λ w. (true, w);
  sigaction = λ w. (true, w);
  socket = λ nonblock w. (none, w);
  setsockopt = λ fd opt w. (true, w);
  bind = λ fd port w. (true, w);
  listen = λ fd backlog w. (true, w);
  accept = λ fd w. (none, w);
  poll = λ pollfds nfds w. (none, w);
  epoll_create1 = λ w. (none, w);
  epoll_ctl_add = λ epollfd fd event w. (false, w);
  epoll_ctl_del = λ epollfd fd w. (false, w);
  epoll_wait = λ epollfd max_events w. (none, w);
}

take-drop : (n : ℕ) (xs : List ℕ) → xs ≡ take n xs ++ drop n xs
take-drop zero xs = refl
take-drop (suc n) [] = refl
take-drop (suc n) (x ∷ xs) = ap (λ r. x ∷ r) (take-drop n xs)

full_or_end : (n : ℕ) (xs : List ℕ) → (length (take n xs) ≡ n) ⊎ (drop n xs ≡ [])
full_or_end zero xs = inl refl
full_or_end (suc n) [] = inr refl
full_or_end (suc n) (x ∷ xs) = elim (full_or_end n xs) [ inl e ↦ inl (ap suc e) | inr e ↦ inr e ]

disk_read :
    (count : ℕ) (w : Disk) (got : List ℕ)
    → some (take count w.rest) ≡ some got
    → (w.rest ≡ got ++ drop count w.rest) × (w.copy ≡ w.copy)
disk_read count w got e =
    (take-drop count w.rest ∙ ap (λ g. g ++ drop count w.rest) (some-injective _ _ e), refl)

abbrev disk_laws : CopyLaws disk_os (some 3) (some 4)
disk_laws = record {
  rest = λ w. w.rest;
  copy = λ w. w.copy;
  read_some = disk_read;
  write_all = λ buf w e. (refl, refl);
}

disk_short : ShortAtEnd disk_os (some 3) (some 4) disk_laws
disk_short count w got e = elim (full_or_end count w.rest) [
  | inl whole ↦ inl (ap length (sym (some-injective _ _ e)) ∙ whole)
  | inr none_left ↦ inr none_left
]

abbrev small_file : List ℕ
small_file = 104 ∷ 105 ∷ 10 ∷ []

copy_loop_copies_example :
    Ends (CallFailed disk_os (some 3) (some 4)) (WholeCopy (λ w. w.copy) small_file) (
      copy_loop disk_os 1
        (some 3)
        (some 4)
        (length small_file)
        0
        (record { rest = small_file; copy = [] }))
copy_loop_copies_example =
    copy_loop_copies disk_os (some 3) (some 4) disk_laws disk_short small_file (omega arith)
      (record { rest = small_file; copy = [] }) 1 refl refl (omega arith)
