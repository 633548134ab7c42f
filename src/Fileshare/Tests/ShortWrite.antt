-- ===== src/Fileshare/Tests/ShortWrite.antt =====
-- A socket that takes three bytes of the first write, while `errno` is EAGAIN from an earlier call: the
-- size of the file is sent twice, the first time only its beginning.
use networking_howto.Prelude.{
  ℕ, ◌≤◌, ◌≡◌, true, some, none, List, [], ◌∷◌, ◌++◌, length, take, take-length-take, length-take,
  if◌then◌else◌, ◌==◌, Bool-cases, inl, inr, StartsWith, Option, arith, refl, ap, ◌∙◌,
}
use mathlib.Core.Option.{some-injective}
use networking_howto.Fileshare.Posix.{Posix, eagain}
use networking_howto.Fileshare.Laws.{Laws}
use networking_howto.Fileshare.Bytes.{bytes_of_u64, htobe64}
use networking_howto.Fileshare.Multiplexing.{send_next, send_at, server_send_file_size}
use networking_howto.Fileshare.Multiplexing.Message.{header}
use networking_howto.Fileshare.Multiplexing.Transfer.{Progress}
use networking_howto.Fileshare.Multiplexing.Header.{CutShort, cut_at, is_cut}
use networking_howto.Fileshare.Multiplexing.History.{History, accepted, turn, cuts}
use networking_howto.Fileshare.Multiplexing.Delivery.{client_gets_message}
use networking_howto.Fileshare.Tests.{
  file_bytes, small_os, read_all, write_all, server, sending, sending_block, size_bytes,
}

abbrev part_written : (buf w : List ℕ) → Option ℕ × List ℕ
part_written buf w =
    if length w == 0
    then (some (length (take 3 buf)), w ++ take 3 buf)
    else (some (length buf), w ++ buf)

abbrev cutting_os : Posix
cutting_os = record small_os { errno = λ w. eagain; write = λ fd buf w. part_written buf w }

some_taken :
    (buf w : List ℕ) (n : ℕ)
    → (part_written buf w).0 ≡ some n
    → (n ≤ length buf) × ((part_written buf w).1 ≡ w ++ take n buf)
some_taken buf w n = elim (Bool-cases (length w == 0)) [
  | inl first ↦ rw first (λ e.
      let n_is : length (take 3 buf) ≡ n = some-injective _ _ e in
      let len = length-take 3 buf in
      (
        omega (arith, n_is, len),
        ap (λ t. w ++ t) (take-length-take 3 buf ∙ ap (λ k. take k buf) n_is),
      ))
  | inr later ↦ rw later (write_all buf w n)
]

none_failed : (buf w : List ℕ) → (part_written buf w).0 ≡ none → (part_written buf w).1 ≡ w
none_failed buf w = elim (Bool-cases (length w == 0)) [
  | inl first ↦ rw first (λ e. absurd (cc))
  | inr later ↦ rw later (λ e. absurd (cc))
]

abbrev cutting_os-Laws : Laws cutting_os
cutting_os-Laws = record {
  sent = λ w fd. w;
  content = λ w fd. file_bytes;
  write_some = λ fd buf w n e. some_taken buf w n e;
  write_none = λ fd buf w e. none_failed buf w e;
  write_keeps = λ fd buf w file. refl;
  pread_some = λ fd count offset w got e. read_all count offset got e;
  pread_keeps = λ fd count offset w other. (refl, refl);
}

abbrev cut_bytes : List ℕ
cut_bytes = 0 ∷ 0 ∷ 0 ∷ []

first_runs : send_next cutting_os server sending [] ≡ some ((true, sending), cut_bytes)
unfolding send_at server_send_file_size htobe64 bytes_of_u64
first_runs = refl

second_runs :
    send_next cutting_os server sending cut_bytes
    ≡ some ((true, sending_block), cut_bytes ++ size_bytes)
unfolding send_at server_send_file_size htobe64 bytes_of_u64
second_runs = refl

abbrev two_turns :
    History cutting_os cutting_os-Laws server sending [] sending_block (cut_bytes ++ size_bytes)
two_turns = turn true (turn true accepted first_runs) second_runs

cut_once : cuts cutting_os cutting_os-Laws server two_turns ≡ 1
unfolding cuts cut_at is_cut bytes_of_u64
cut_once = refl

client_gets_message_example :
    (left : List ℕ) × CutShort
      (header server)
      (cuts cutting_os cutting_os-Laws server two_turns)
      left
    × StartsWith (([] ++ left) ++ (header server ++ file_bytes)) (cut_bytes ++ size_bytes)
    × Progress cutting_os cutting_os-Laws server
        ([] ++ left)
        file_bytes
        sending_block
        (cut_bytes ++ size_bytes)
        sending_block.state
client_gets_message_example =
    client_gets_message cutting_os cutting_os-Laws server sending sending_block []
      (cut_bytes ++ size_bytes) refl (omega arith) refl two_turns
