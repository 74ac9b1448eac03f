-- ===== src/Listing/Paths.antt =====
-- What a recursive listing shows of a tree of directories.
use mathlib.Core.List.{map-append}
use csel.Prelude.{
  ℕ, zero, suc, ◌+◌, ◌≤◌, none, some, ◌≡◌, refl, ◌∙◌, ap, List, [], ◌∷◌, ◌++◌, true, false,
  Option-cases, inl, inr, map, arith, length, length-append, leb,
}
use csel.Cstd.{Bytes, codes, ok}
use csel.Listing.{
  FileSystem, enter, is_scanned, Scan, Line, head, info, copy_names, infos, sub_path, main, parse,
  listed, scan_dir, scan_entries,
}

-- A tree of directories: each with its number, and its entries in order, of which the directories are
-- those that are scanned.
mutual
  pub data Dir : Type 0 where
    unreadable : Dir
    entries : Entries → Dir

  pub data Entries : Type 0 where
    end : Entries
    other : (name : Bytes) → Entries → Entries
    directory : (name : Bytes) → (there : ℕ) → Dir → Entries → Entries

unfoldable pub names_of : Entries → List Bytes
names_of end = []
names_of (other name es) = name ∷ names_of es
names_of (directory name there d es) = name ∷ names_of es

-- The file system has this tree at the directory `here`: chdir enters each of its directories, and leads back
-- from there by `..`; no name is longer than 255 bytes.
unfoldable mutual
  unfolding names_of

  pub Holds : FileSystem → ℕ → Dir → Type 0
  Holds fs here unreadable = fs.names here ≡ none
  Holds fs here (entries es) = (fs.names here ≡ some (names_of es)) × HoldsAll fs here es

  pub HoldsAll : FileSystem → ℕ → Entries → Type 0
  HoldsAll fs here end = Unit {0}
  HoldsAll fs here (other name es) =
      (is_scanned fs here name ≡ false) × (length name ≤ 255) × HoldsAll fs here es
  HoldsAll fs here (directory name there d es) =
      (is_scanned fs here name ≡ true)
      × (length name ≤ 255)
      × (fs.chdir here name ≡ some there)
      × (fs.chdir there (codes "..") ≡ some here)
      × Holds fs there d
      × HoldsAll fs here es

-- The tree has at most so many directories inside each other.
unfoldable mutual
  pub IsWithin : ℕ → Dir → Type 0
  IsWithin zero d = ⊥
  IsWithin (suc depth) unreadable = Unit {0}
  IsWithin (suc depth) (entries es) = AreWithin depth es

  pub AreWithin : ℕ → Entries → Type 0
  AreWithin depth end = Unit {0}
  AreWithin depth (other name es) = AreWithin depth es
  AreWithin depth (directory name there d es) = IsWithin depth d × AreWithin depth es

-- The directories of a tree, itself first, each as the names that lead to it.
unfoldable mutual
  pub sub_dirs : Dir → List (List Bytes)
  sub_dirs unreadable = [] ∷ []
  sub_dirs (entries es) = [] ∷ entry_dirs es

  pub entry_dirs : Entries → List (List Bytes)
  entry_dirs end = []
  entry_dirs (other name es) = entry_dirs es
  entry_dirs (directory name there d es) =
      let inner = map (◌∷◌ name) (sub_dirs d) in let rest = entry_dirs es in inner ++ rest

unfoldable pub join : Bytes → List Bytes → Bytes
join path [] = path
join path (name ∷ names) = join (path ++ b'/' ∷ name) names

unfoldable pub heads : List Line → List Bytes
heads [] = []
heads (head path ∷ lines) = path ∷ heads lines
heads (info text ∷ lines) = heads lines

heads-append : (xs ys : List Line) → heads (xs ++ ys) ≡ heads xs ++ heads ys
unfolding heads
heads-append [] ys = refl
heads-append (head path ∷ xs) ys = ap (◌∷◌ path) (heads-append xs ys)
heads-append (info text ∷ xs) ys = heads-append xs ys

heads-infos : (fs : FileSystem) (here : ℕ) (names : List Bytes) → heads (infos fs here names) ≡ []
unfolding heads infos
heads-infos fs here [] = refl
heads-infos fs here (name ∷ names) = elim (Option-cases (fs.stat here name)) [
  | inl unknown ↦ rw (heads, unknown) (heads-infos fs here names)
  | inr (s, known) ↦ rw (heads, known) (heads-infos fs here names)
]

join-inner :
    (path name : Bytes) (ns : List (List Bytes))
    → map (join (sub_path path name)) ns ≡ map (join path) (map (◌∷◌ name) ns)
unfolding join
join-inner path name [] = refl
join-inner path name (n ∷ ns) = ap (◌∷◌ (join (sub_path path name) n)) (join-inner path name ns)

copy_names_short :
    (fs : FileSystem) (here : ℕ) (es : Entries)
    → HoldsAll fs here es
    → copy_names (names_of es) ≡ ok tt
unfolding Holds copy_names names_of
copy_names_short fs here end h = refl
copy_names_short fs here (other name es) (_, n, h) = ground (arith, copy_names_short fs here es h)
copy_names_short fs here (directory name there d es) (_, n, _, _, _, h) =
    ground (arith, copy_names_short fs here es h)

pub room :
    (path name : Bytes)
    → length name ≤ 255
    → leb (length (sub_path path name) + 1) (length path + 1 + 256) ≡ true
room path name h = let l = length-append path (b'/' ∷ name) in ground arith

enters :
    (fs : FileSystem) (here there : ℕ) (path : Bytes)
    → fs.chdir here path ≡ some there
    → enter fs here path ≡ there
enters fs here there path entered = rw (enter, entered) refl

-- A subdirectory is scanned, and then the entries behind it.
scan_entries_next :
    (fs : FileSystem) (scan : ℕ → Bytes → Scan) (here there : ℕ) (path name : Bytes)
    (names : List Bytes) (inner rest : List Line)
    → is_scanned fs here name ≡ true
    → length name ≤ 255
    → enter fs here name ≡ there
    → scan there (sub_path path name) ≡ ok (inner, there)
    → enter fs there (codes "..") ≡ here
    → scan_entries fs scan here path names ≡ ok (rest, here)
    → scan_entries fs scan here path (name ∷ names) ≡ ok (inner ++ rest, here)
unfolding scan_entries
scan_entries_next fs scan here there path name names inner rest scanned n down e up g =
    rw (scan_entries, scanned, room path name n, down, e, up, g) refl

-- What a scan prints, which leaves the process where it was: lines whose heads are those of the directories.
abbrev pub Shows : ℕ → Scan → List Bytes → Type 0
Shows here r paths = (lines : List Line) × (r ≡ ok (lines, here)) × (heads lines ≡ paths)

mutual
  unfolding scan_dir scan_entries sub_dirs Holds IsWithin join heads

  scan_dir-Shows :
      (fs : FileSystem) (depth here : ℕ) (path : Bytes) (d : Dir)
      → Holds fs here d
      → IsWithin depth d
      → Shows here (scan_dir fs depth true here path) (map (join path) (sub_dirs d))
  scan_dir-Shows fs zero here path d h w = absurd w
  scan_dir-Shows fs (suc depth) here path unreadable h w =
      (head path ∷ [], rw (scan_dir, h) refl, refl)
  scan_dir-Shows fs (suc depth) here path (entries es) (listed_names, h) w =
      let (below, e, f) = scan_entries-Shows fs depth here path es h w in
      (
        head path ∷ (infos fs here (names_of es) ++ below),
        rw (scan_dir, listed_names, copy_names_short fs here es h, e) refl,
        ap (◌∷◌ path) (
            heads-append (infos fs here (names_of es)) below
            ∙ rw (heads-infos fs here (names_of es)) f),
      )

  scan_entries-Shows :
      (fs : FileSystem) (depth here : ℕ) (path : Bytes) (es : Entries)
      → HoldsAll fs here es
      → AreWithin depth es
      → Shows here
          (scan_entries fs (scan_dir fs depth true) here path (names_of es))
          (map (join path) (entry_dirs es))
  scan_entries-Shows fs depth here path end h w = ([], refl, refl)
  scan_entries-Shows fs depth here path (other name es) (skipped, n, h) w =
      rw (scan_entries, skipped) (scan_entries-Shows fs depth here path es h w)
  scan_entries-Shows fs depth here path (directory name there d es)
        (scanned, n, down, up, inside, h) (v, w) =
      let (inner, e, f) = scan_dir-Shows fs depth there (sub_path path name) d inside v in
      let (rest, g, k) = scan_entries-Shows fs depth here path es h w in
      (
        inner ++ rest,
        scan_entries_next fs (scan_dir fs depth true) here there path name (names_of es) inner rest
            scanned n (enters fs here there name down) e (enters fs there here (codes "..") up) g,
        heads-append inner rest
            ∙ rw (f, k, map-append (join path) (map (◌∷◌ name) (sub_dirs d)) (entry_dirs es))
                (ap (λ paths. paths ++ map (join path) (entry_dirs es))
                  (join-inner path name (sub_dirs d))),
      )

-- With the option -r, let chdir enter a directory at which the file system has a finite tree: in
-- every directory of it that can be opened, chdir enters each entry that is scanned (a directory
-- by stat, and not . or ..), which is the next directory of the tree, and leads back from there
-- by .., and no name is longer than 255 bytes. Where the stack has room for as many calls inside
-- each other as the tree has levels, the program runs to its end, and the directories whose heads
-- it prints are those of the tree, each once, under the path that leads to it, a directory before
-- those inside it and the others in the order of the sorted entries.
pub main_visits :
    (fs : FileSystem) (depth start here : ℕ) (path : Bytes) (d : Dir)
    → fs.chdir start path ≡ some here
    → Holds fs here d
    → IsWithin depth d
    → (lines : List Line) × (main fs depth start (b'r' ∷ []) (path ∷ []) ≡ listed (ok lines))
      × (heads lines ≡ map (join path) (sub_dirs d))
unfolding main parse
main_visits fs depth start here path d entered h w =
    let (lines, e, visited) = scan_dir-Shows fs depth here path d h w in
    (lines, rw (enters fs start here path entered, e) refl, visited)
