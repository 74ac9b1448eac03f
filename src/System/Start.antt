-- ===== src/System/Start.antt =====
-- The mode of the daemon when it starts: the module's.
use csel.Prelude.{
  ℕ, ◌≡◌, ◌≢◌, refl, Bool, false, List, [], ◌∷◌, ℤ, pos, negsuc, eqb_ℤ, arith, if◌then◌else◌,
  Bool-cases, inl, inr,
}
use csel.Cstd.{Bytes, ok, atoi}
use csel.FanPwm.{Kernel, IsDocumented, Driver, mode_show}
use csel.FanPwm.Attributes.{mode_show_lem}
use csel.Daemon.{Daemon, opened, closed, rdonly, pread_at_0}
use csel.Daemon.Fan.{get_mode, fan_mode_file}

-- The module's mode as the number that the daemon has for it.
abbrev pub mode_number : Bool → ℤ
mode_number mode = if mode then pos 1 else pos 0

-- The digit that the module shows for its mode.
abbrev digit : Bool → ℕ
digit mode = if mode then b'1' else b'0'

-- For a kernel that does what is documented: where the open of the mode's file answers with a
-- descriptor other than -1 and the read with what the kernel hands out of the page that
-- `mode_show` fills, `get_mode` gives 1 if the module is in manual mode and 0 if it is in
-- automatic mode, and opens, reads and closes the file.
pub get_mode-mode_show :
    (k : Kernel) (drv : Driver) (f : ℤ) (d : Daemon) (opens : List ℤ) (shown : ℤ × Bytes)
    (reads : List Bytes)
    → IsDocumented k
    → f ≢ negsuc 0
    → mode_show drv ≡ ok shown
    → d.answers.opens ≡ f ∷ opens
    → d.answers.reads ≡ k.sysfs_read shown ∷ reads
    → get_mode d
      ≡ ok (
        mode_number drv.mode,
        record d { answers = record d.answers { opens = opens; reads = reads } },
        opened fan_mode_file rdonly f ∷ pread_at_0 f 5 ∷ closed f ∷ [],
      )
unfolding get_mode atoi
get_mode-mode_show k drv f d opens shown reads doc good shows fds texts =
    let other : eqb_ℤ f (negsuc 0) ≡ false = ground (arith, good) in
    let page : k.sysfs_read (pos 1, digit drv.mode ∷ 0 ∷ []) ≡ digit drv.mode ∷ [] =
      doc.reads 1 _ in
    let text : d.answers.reads ≡ (digit drv.mode ∷ []) ∷ reads =
      cc (texts, shows, mode_show_lem drv, page) in
    elim (Bool-cases drv.mode) [
      | inl on ↦ rw (fds, other, text, on) refl
      | inr off ↦ rw (fds, other, text, off) refl
    ]
