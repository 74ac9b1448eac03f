-- ===== src/Listing.antt =====
-- environment/code_exemples/ls_exemple.c: a listing of directories, with the mode of each file as a
-- string.
pub mod Mode
pub mod Paths
pub mod Stuck
use csel.Prelude.{
  zero, suc, ℕ, ◌+◌, ◌-◌, List, [], ◌∷◌, ◌++◌, Bool, true, false, Option, none, some, ◌⊎◌, inl, inr,
  bit_and, ltb, leb, ◌==◌, if◌then◌else◌, length, replicate, take, pos,
}
use csel.Cstd.{
  Bytes, codes, str_eq, format_int, Outcome, ok, fault, and_then, buffer_overflow, stack_overflow,
}

-- The kinds of file of <sys/stat.h>, under the mask S_IFMT.
abbrev pub file_type : ℕ → ℕ
file_type mode = bit_and mode 0xf000

unfoldable pub mode2filetype : ℕ → ℕ
mode2filetype mode =
    if file_type mode == 0xc000
    then b's'
    else if file_type mode == 0xa000
    then b'l'
    else if file_type mode == 0x8000
    then b'-'
    else if file_type mode == 0x6000
    then b'b'
    else if file_type mode == 0x4000
    then b'd'
    else if file_type mode == 0x2000
    then b'c'
    else if file_type mode == 0x1000
    then b'f'
    else b'-'

-- `mode & bit ? c : '-'`
abbrev pub flag : ℕ → ℕ → ℕ → ℕ
flag mode bit c = if bit_and mode bit == 0 then b'-' else c

-- `c`, unless a special bit puts an s in its place
abbrev pub special : ℕ → ℕ → ℕ → ℕ
special mode bit c = if bit_and mode bit == 0 then c else b's'

-- The string in `buf`, without the NUL.
unfoldable pub mode2str : ℕ → Bytes
unfolding mode2filetype
mode2str mode =
    mode2filetype mode
    ∷ flag mode 256 b'r'
    ∷ flag mode 128 b'w'
    ∷ special mode 2048 (flag mode 64 b'x')
    ∷ flag mode 32 b'r'
    ∷ flag mode 16 b'w'
    ∷ special mode 1024 (flag mode 8 b'x')
    ∷ flag mode 4 b'r'
    ∷ flag mode 2 b'w'
    ∷ flag mode 1 b'x'
    ∷ flag mode 512 b't'
    ∷ []

-- struct stat, as far as it is printed: `time` is what ctime_r makes of st_mtime, with its line end.
pub record Stat : Type 0 where
  pub ino : ℕ
  pub mode : ℕ
  pub nlink : ℕ
  pub size : ℕ
  pub time : Bytes

-- A number, right-aligned in a field.
abbrev padded : ℕ → ℕ → Bytes
padded width n = let text = format_int (pos n) in replicate (width - length text) b' ' ++ text

abbrev without_last : Bytes → Bytes
without_last text = take (length text - 1) text

unfoldable pub print_info : Bytes → Stat → Bytes
unfolding mode2str
print_info name stat =
    padded 10 stat.ino
    ++ codes " "
    ++ mode2str stat.mode
    ++ codes " "
    ++ padded 3 stat.nlink
    ++ codes " "
    ++ padded 8 stat.size
    ++ codes " "
    ++ without_last stat.time
    ++ codes " "
    ++ name
    ++ codes "\n"

-- The file system, its directories as numbers: the names of a directory, as qsort leaves them, or nothing
-- where opendir fails; what stat answers, from a directory, for a name; and where chdir leads, or nothing
-- where it fails.
pub record FileSystem : Type 0 where
  pub names : ℕ → Option (List Bytes)
  pub stat : ℕ → Bytes → Option Stat
  pub chdir : ℕ → Bytes → Option ℕ

-- The directory after chdir; where it fails, the process stays where it is.
abbrev pub enter : FileSystem → ℕ → Bytes → ℕ
enter fs here path = elim (fs.chdir here path) [ none ↦ here | some there ↦ there ]

-- What is printed, in order: the head of a directory, and the lines of its files.
pub data Line : Type 0 where
  head : (path : Bytes) → Line
  info : Bytes → Line

-- strcpy into one of the 256 bytes that a name has: `ok` if the name and its NUL fit.
abbrev pub fits_slot : Bytes → Bool
fits_slot name = leb (length name + 1) 256

-- The names of all entries are copied before anything is printed of them.
unfoldable pub copy_names : List Bytes → Outcome (Unit {0})
copy_names [] = ok tt
copy_names (name ∷ names) =
    let rest = copy_names names in if fits_slot name then rest else fault buffer_overflow

unfoldable pub infos : FileSystem → ℕ → List Bytes → List Line
infos fs here [] = []
infos fs here (name ∷ names) =
    let rest = infos fs here names in
    elim (fs.stat here name) [ none ↦ rest | some s ↦ info (print_info name s) ∷ rest ]

abbrev pub is_dots : Bytes → Bool
is_dots name = if str_eq name (codes ".") then true else str_eq name (codes "..")

-- The path of a subdirectory in `p`, which has strlen (path) + 1 + 256 bytes.
abbrev pub sub_path : Bytes → Bytes → Bytes
sub_path path name = path ++ b'/' ∷ name

-- The entries that are scanned: directories, by stat, but not . and ..
abbrev pub is_scanned : FileSystem → ℕ → Bytes → Bool
is_scanned fs here name =
    if is_dots name
    then false
    else elim (fs.stat here name) [ none ↦ false | some s ↦ file_type s.mode == 0x4000 ]

abbrev pub Scan : Type 0
Scan = Outcome (List Line × ℕ)

-- The loop over the subdirectories: what `scan` prints of each, and the directory that it leaves the process
-- in, from which the loop goes up by one.
unfoldable pub scan_entries :
    FileSystem → (scan : ℕ → Bytes → Scan) → (here : ℕ) → Bytes → List Bytes → Scan
scan_entries fs scan here path [] = ok ([], here)
scan_entries fs scan here path (name ∷ names) = elim (is_scanned fs here name) [
  | false ↦ scan_entries fs scan here path names
  | true ↦ elim (leb (length (sub_path path name) + 1) (length path + 1 + 256)) [
    | false ↦ fault buffer_overflow
    | true ↦ and_then (scan (enter fs here name) (sub_path path name)) λ (inner, there).
        and_then (scan_entries fs scan (enter fs there (codes "..")) path names)
          λ (rest, at). ok (inner ++ rest, at)
  ]
]

-- `depth` is the number of calls inside each other that the stack has room for.
unfoldable pub scan_dir :
    FileSystem → (depth : ℕ) → (recursively : Bool) → (here : ℕ) → Bytes → Scan
scan_dir fs zero recursively here path = fault stack_overflow
scan_dir fs (suc depth) recursively here path = elim (fs.names here) [
  | none ↦ ok (head path ∷ [], here)
  | some names ↦ and_then (copy_names names) λ _.
      and_then
        (elim recursively [
          | false ↦ ok ([], here)
          | true ↦ scan_entries fs (scan_dir fs depth true) here path names
        ])
        λ (below, at). ok (head path ∷ (infos fs here names ++ below), at)
]

-- The end of a run: the help, one of the errors, or the listing.
pub data Exit : Type 0 where
  usage invalid_option too_many_arguments : Exit
  listed : Outcome (List Line) → Exit

-- The options, as getopt returns them: nothing where one ends the run, else whether -r was among them.
unfoldable pub parse : List ℕ → Bool → Exit ⊎ Bool
parse [] recursively = inr recursively
parse (op ∷ ops) recursively =
    if op == b'h' then inl usage else if op == b'r' then parse ops true else inl invalid_option

-- What is printed from a directory on.
abbrev pub list_from : FileSystem → (depth : ℕ) → Bool → ℕ → Bytes → Exit
list_from fs depth recursively here path =
    listed
      (and_then (scan_dir fs depth recursively (enter fs here path) path) λ (lines, at). ok lines)

-- `main`, in the directory `here`, with what getopt leaves as arguments.
unfoldable pub main : FileSystem → (depth : ℕ) → (here : ℕ) → (ops : List ℕ) → List Bytes → Exit
unfolding parse scan_dir
main fs depth here ops arguments = elim (parse ops false) [
  | inl exit ↦ exit
  | inr recursively ↦ elim arguments [
    | [] ↦ list_from fs depth recursively here (codes ".")
    | path ∷ rest ↦ elim rest [
      | [] ↦ list_from fs depth recursively here path
      | _ ∷ _ ↦ too_many_arguments
    ]
  ]
]
