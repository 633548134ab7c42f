-- ===== src/Fileshare/Multiplexing/Message.antt =====
-- The message that a client is sent, and its parts: the size of the file, then the file.
use networking_howto.Prelude.{
  ℕ, ◌+◌, ◌≤◌, ◌≡◌, List, ◌++◌, length, take, drop, take-append-drop, take-add, StartsWith,
  StartsWith-take, StartsWith-append, length-drop, length-take, arith, sym, ap, ◌∙◌,
}
use mathlib.Core.List.{append_assoc}
use networking_howto.Fileshare.Bytes.{bytes_of_u64, htobe64, length-bytes_of_u64}
use networking_howto.Fileshare.Multiplexing.{FileshareServer}

-- The eight bytes that announce the size of the file.
unfoldable pub header : FileshareServer → List ℕ
header server = bytes_of_u64 (htobe64 server.src_file_size)

pub length-header : (server : FileshareServer) → length (header server) ≡ 8
unfolding header
length-header server = length-bytes_of_u64 (htobe64 server.src_file_size)

-- A further piece of the file in its place.
pub join :
    (before front file : List ℕ) (off k : ℕ)
    → (before ++ (front ++ take off file)) ++ take k (drop off file)
      ≡ before ++ (front ++ take (off + k) file)
join before front file off k =
    append_assoc before (front ++ take off file) (take k (drop off file))
    ∙ ap (λ t. before ++ t)
        (append_assoc front (take off file) (take k (drop off file))
          ∙ ap (λ t. front ++ t) (sym (take-add off k file)))

pub part_of_message :
    (before front file : List ℕ) (off : ℕ)
    → StartsWith (before ++ (front ++ file)) (before ++ (front ++ take off file))
part_of_message before front file off =
    StartsWith-append before (front ++ file) (front ++ take off file)
      (StartsWith-append front file (take off file) (StartsWith-take off file))

pub part_of_header :
    (before front file : List ℕ) (k : ℕ)
    → StartsWith (before ++ (front ++ file)) (before ++ take k front)
part_of_header before front file k = StartsWith-append before (front ++ file) (take k front) (
  drop k front ++ file,
  sym (append_assoc (take k front) (drop k front) file)
      ∙ ap (λ t. t ++ file) (take-append-drop k front),
)

pub block_fits :
    (block file : List ℕ) (off : ℕ)
    → off ≤ length file
    → block ≡ take (length block) (drop off file)
    → off + length block ≤ length file
block_fits block file off le e =
    omega (arith, ap length e, length-take (length block) (drop off file), length-drop off file)
