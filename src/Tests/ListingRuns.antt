-- ===== src/Tests/ListingRuns.antt =====
-- Runs of the directory listing.
use csel.Prelude.{
  ℕ, ◌+◌, ◌-◌, ◌==◌, ◌≡◌, refl, true, List, [], ◌∷◌, Option, some, none, if◌then◌else◌, map, arith,
}
use csel.Cstd.{Bytes, codes, str_eq, ok, fault, stack_overflow}
use csel.Listing.{
  FileSystem, Stat, Line, main, listed, usage, invalid_option, too_many_arguments, mode2str,
  scan_dir, copy_names,
}
use csel.Listing.Mode.{read_mode, read_mode-mode2str, shown_bits}
use csel.Listing.Stuck.{unenterable_overflows}
use csel.Listing.Paths.{
  Dir, entries, end, other, directory, Holds, IsWithin, main_visits, heads, join, sub_dirs,
}

-- A directory with the mode rwxr-sr-x, whose group may execute it.
read_mode-mode2str_example : read_mode (mode2str 0x45ed) ≡ some (0x4000, shown_bits 0x45ed)
read_mode-mode2str_example = read_mode-mode2str 0x45ed refl

abbrev stat : Stat
stat = record { ino = 7; mode = 0x41ed; nlink = 2; size = 4096; time = codes "noon\n" }

abbrev file_stat : Stat
file_stat = record stat { mode = 0x81a4 }

-- From the directory 0, `top` has itself as `.`, a file, and a directory with one more inside; 4 has a
-- directory that nobody may enter.
abbrev listing : ℕ → Option (List Bytes)
listing n =
    if n == 1
    then some (codes "." ∷ codes "a" ∷ codes "b" ∷ [])
    else if n == 2
    then some (codes "c" ∷ [])
    else if n == 3
    then some []
    else if n == 4
    then some (codes "d" ∷ [])
    else none

abbrev chdir : ℕ → Bytes → Option ℕ
chdir n path =
    if str_eq path (codes "..")
    then some (n - 1)
    else if str_eq path (codes "d")
    then none
    else some (n + 1)

abbrev files : FileSystem
files = record {
  names = listing;
  stat = λ n name. if str_eq name (codes "a") then some file_stat else some stat;
  chdir = chdir;
}

abbrev tree : Dir
tree = entries (
    other (codes ".") (
      other (codes "a")
        (directory (codes "b") 2 (entries (directory (codes "c") 3 (entries end) end)) end)))

main_visits_example :
    (lines : List Line) × (main files 3 0 (b'r' ∷ []) (codes "top" ∷ []) ≡ listed (ok lines))
    × (heads lines ≡ map (join (codes "top")) (sub_dirs tree))
unfolding Holds IsWithin str_eq
main_visits_example =
    main_visits files 3 0 1 (codes "top") tree refl
      (
        refl,
        (
          refl,
          omega arith,
          (
            refl,
            omega arith,
            (
              refl,
              omega arith,
              refl,
              refl,
              (refl, (refl, omega arith, refl, refl, (refl, tt), tt)),
              tt,
            ),
          ),
        ),
      )
      ((tt, tt), tt)

unenterable_overflows_example : scan_dir files 9 true 4 (codes "closed") ≡ fault stack_overflow
unfolding str_eq copy_names
unenterable_overflows_example =
    unenterable_overflows files 9 4 (codes "d") (codes "closed") [] refl refl refl refl

-- An option that is not known ends the run, and -h does where it comes first.
options :
    (main files 3 0 (codes "rx") [] ≡ invalid_option)
    × (main files 3 0 (codes "rh") [] ≡ usage)
    × (main files 3 0 [] (codes "a" ∷ codes "b" ∷ []) ≡ too_many_arguments)
unfolding main
options = (refl, refl, refl)
