-- ===== src/FanPwm/Attributes.antt =====
-- The sysfs attributes: what is written is shown, and a refused text changes nothing.
use csel.Prelude.{
  ℕ, ◌≤◌, ◌≡◌, refl, ◌∙◌, true, false, [], ◌∷◌, ◌++◌, inl, inr, arith, length, length-append,
  take_all, take-length, All-append, ℤ, pos, IsInt32, to_int32_of_IsInt32, Bool, eqb_ℤ, Bool-cases,
  if◌then◌else◌,
}
use csel.Cstd.{Bytes, ok, NoNul, format_int, strcpy-append, codes}
use csel.Cstd.Laws.{format_int-NoNul, length-format_int_le}
use csel.FanPwm.{
  Kernel, IsDocumented, Driver, mode_store, mode_show, freq_store, freq_show, show_text,
}

-- A text without NUL that leaves room for one is shown whole.
pub show_text_lem :
    (s : Bytes) → NoNul s → length s ≤ 31 → show_text s ≡ ok (pos (length s), s ++ 0 ∷ [])
unfolding show_text
show_text_lem s h fits = rw (take_all 31 s fits, strcpy-append s [] h)

line-NoNul : (a : ℤ) → NoNul (format_int a ++ b'\n' ∷ [])
line-NoNul a = All-append _ (format_int a) _ (format_int-NoNul a) (omega arith)

line_fits : (a : ℤ) → IsInt32 a → length (format_int a ++ b'\n' ∷ []) ≤ 31
line_fits a h = omega (arith, length-append (format_int a) (b'\n' ∷ []), length-format_int_le a h)

pub shown_line :
    (a : ℤ) (d : Driver)
    → IsInt32 a
    → d.freq ≡ a
    → let text = format_int a ++ b'\n' ∷ [] in freq_show d ≡ ok (pos (length text), text ++ 0 ∷ [])
unfolding freq_show
shown_line a d h e = rw e (show_text_lem _ (line-NoNul a) (line_fits a h))

pub freq_store_lem :
    (k : Kernel) (a : ℤ) (count : ℕ) (d : Driver)
    → IsDocumented k
    → IsInt32 a
    → freq_store k (format_int a) count d ≡ (pos count, record d { freq = a })
unfolding freq_store
freq_store_lem k a count d doc h = rw (doc.parses a h, to_int32_of_IsInt32 a h)

unfoldable pub is_set : ℤ → Bool
is_set a = if eqb_ℤ a (pos 0) then false else true

pub mode_store_lem :
    (k : Kernel) (a : ℤ) (count : ℕ) (d : Driver)
    → IsDocumented k
    → IsInt32 a
    → mode_store k (format_int a) count d ≡ (pos count, record d { mode = is_set a })
unfolding mode_store is_set
mode_store_lem k a count d doc h = rw (doc.parses a h)

pub mode_show_lem :
    (d : Driver) → mode_show d ≡ ok (pos 1, (if d.mode then b'1' else b'0') ∷ 0 ∷ [])
unfolding mode_show
mode_show_lem d = elim (Bool-cases d.mode) [ inl e ↦ rw e | inr e ↦ rw e ]

-- For a kernel that does what is documented: an int that is written to `freq` in decimal changes
-- nothing but the frequency, the store returns the count it was given, and a reader of `freq`
-- then gets the number in decimal and a line end.
pub freq_show-freq_store :
    (k : Kernel) (a : ℤ) (count : ℕ) (d : Driver)
    → IsDocumented k
    → IsInt32 a
    → let (ret, d') = freq_store k (format_int a) count d in
      (ret ≡ pos count)
      × (d' ≡ record d { freq = a })
      × (shown : ℤ × Bytes) × (freq_show d' ≡ ok shown)
      × (k.sysfs_read shown ≡ format_int a ++ b'\n' ∷ [])
freq_show-freq_store k a count d doc h =
    let text = format_int a ++ b'\n' ∷ [] in
    rw (freq_store_lem k a count d doc h) (
      refl,
      refl,
      (pos (length text), text ++ 0 ∷ []),
      shown_line a (record d { freq = a }) h refl,
      doc.reads (length text) (text ++ 0 ∷ []) ∙ take-length text (0 ∷ []),
    )

-- For a kernel that does what is documented: when an int is written to `mode` in decimal, the
-- store returns the count it was given, and a reader of `mode` then gets "0" if the int is 0, and
-- "1" if it is not.
pub mode_show-mode_store :
    (k : Kernel) (a : ℤ) (count : ℕ) (d : Driver)
    → IsDocumented k
    → IsInt32 a
    → let (ret, d') = mode_store k (format_int a) count d in
      (ret ≡ pos count)
      × (shown : ℤ × Bytes) × (mode_show d' ≡ ok shown)
      × (k.sysfs_read shown ≡ (if eqb_ℤ a (pos 0) then codes "0" else codes "1"))
mode_show-mode_store k a count d doc h =
    let page : Bytes = (if is_set a then b'1' else b'0') ∷ 0 ∷ [] in
    rw (mode_store_lem k a count d doc h) (
      refl,
      (pos 1, page),
      mode_show_lem (record d { mode = is_set a }),
      doc.reads 1 page ∙ (unfold is_set in ground arith),
    )
