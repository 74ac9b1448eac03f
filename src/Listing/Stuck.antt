-- ===== src/Listing/Stuck.antt =====
-- A recursive listing of a directory with one inside that chdir does not enter.
use csel.Prelude.{ℕ, zero, suc, ◌≤◌, none, some, ◌≡◌, refl, List, ◌∷◌, true, arith, length}
use csel.Cstd.{Bytes, ok, fault, stack_overflow}
use csel.Listing.{FileSystem, enter, is_scanned, Scan, copy_names, sub_path, scan_dir, scan_entries}
use csel.Listing.Paths.{room}

stays :
    (fs : FileSystem) (here : ℕ) (path : Bytes)
    → fs.chdir here path ≡ none
    → enter fs here path ≡ here
stays fs here path refused = rw (enter, refused) refl

-- A subdirectory whose scan leaves the stack.
scan_entries_stops :
    (fs : FileSystem) (scan : ℕ → Bytes → Scan) (here there : ℕ) (path name : Bytes)
    (names : List Bytes)
    → is_scanned fs here name ≡ true
    → length name ≤ 255
    → enter fs here name ≡ there
    → scan there (sub_path path name) ≡ fault stack_overflow
    → scan_entries fs scan here path (name ∷ names) ≡ fault stack_overflow
unfolding scan_entries
scan_entries_stops fs scan here there path name names scanned n down faults =
    rw (scan_entries, scanned, room path name n, down, faults) refl

first_fits :
    (name : Bytes) (names : List Bytes) → copy_names (name ∷ names) ≡ ok tt → length name ≤ 255
unfolding copy_names
first_fits name names short = ground arith

-- Where a directory can be read and its names fit their places, and its first name is, by stat,
-- that of another directory, which chdir does not enter: a recursive scan of it leaves the stack,
-- however many calls inside each other this has room for, since the scan stays in the directory
-- and comes to the same name again.
pub unenterable_overflows :
    (fs : FileSystem) (depth here : ℕ) (name path : Bytes) (names : List Bytes)
    → fs.names here ≡ some (name ∷ names)
    → copy_names (name ∷ names) ≡ ok tt
    → is_scanned fs here name ≡ true
    → fs.chdir here name ≡ none
    → scan_dir fs depth true here path ≡ fault stack_overflow
unfolding scan_dir scan_entries
unenterable_overflows fs zero here name path names has short scanned closed = refl
unenterable_overflows fs (suc depth) here name path names has short scanned closed =
    let again =
      unenterable_overflows fs depth here name (sub_path path name) names has short scanned
        closed in
    let stops =
      scan_entries_stops fs (scan_dir fs depth true) here here path name names scanned
        (first_fits name names short) (stays fs here name closed) again in
    rw (scan_dir, has, short, stops) refl
