-- ===== src/Ssd1306/Frames.antt =====
-- What goes over the bus: no read leaves the font, a text becomes eight bytes of pixels a character,
-- and a position is encoded in three commands.
use csel.Prelude.{
  ℕ, zero, suc, ◌+◌, ◌-◌, ◌*◌, ◌/◌, ◌%◌, ◌≤◌, ◌<◌, ◌≡◌, refl, ◌↔◌, true, false, Bool, ◌&&◌, List,
  [], ◌∷◌, ◌++◌, Option, none, some, arith, ◌==◌, length, length-append, get_elem?, All, All-append,
  ℤ, pos, negsuc, ltb_ℤ, ◌≤ℤ◌, Option-cases, inl, inr, bit_and, ◌^◌, ◌∙◌, Bool-cases, every,
  every_applies,
}
use csel.Cstd.{Bytes, Outcome, ok}
use csel.Ssd1306.{
  font, set_position, send_columns, putc, puts, clear_display, init, oled_data_mode, ◌then_send◌,
  send_data, printable, clear_row, clear_rows, send_commands, init_commands, send_command,
}

-- A message that carries one byte of pixels.
abbrev pub IsPixels : Bytes → Type 0
IsPixels m = (b : ℕ) × (m ≡ oled_data_mode ∷ b ∷ []) × (b < 256)

-- `n` messages of pixels and nothing else.
abbrev pub SendsPixels : ℕ → Outcome (List Bytes) → Type 0
SendsPixels n r = (ms : List Bytes) × (r ≡ ok ms) × (length ms ≡ n) × All IsPixels ms

-- The table has a row of eight columns for each of its 96 characters.
has_row : ℕ → Bool
has_row i = elim (get_elem? font i) [ none ↦ false | some row ↦ length row == 8 ]

font_complete : every has_row 96 ≡ true
unfolding every has_row font
font_complete = refl

has_row-found :
    (i : ℕ) → has_row i ≡ true → (row : Bytes) × (get_elem? font i ≡ some row) × (length row ≡ 8)
unfolding has_row
has_row-found i h = elim (Option-cases (get_elem? font i)) [
  | inl missing ↦ absurd (ground arith)
  | inr (row, found) ↦ (row, found, ground arith)
]

row_found : (i : ℕ) → i < 96 → (row : Bytes) × (get_elem? font i ≡ some row) × (length row ≡ 8)
row_found i lt = has_row-found i (every_applies has_row 96 i font_complete lt)

get_elem?_lt : (xs : Bytes) (i : ℕ) → i < length xs → (b : ℕ) × (get_elem? xs i ≡ some b)
get_elem?_lt [] i h = absurd (omega arith)
get_elem?_lt (x ∷ xs) zero h = (x, refl)
get_elem?_lt (x ∷ xs) (suc i) h = get_elem?_lt xs i (omega arith)

then_send-SendsPixels :
    (m n : ℕ) (a b : Outcome (List Bytes))
    → SendsPixels m a
    → SendsPixels n b
    → SendsPixels (m + n) (a then_send b)
then_send-SendsPixels m n a b (xs, ea, la, pa) (ys, eb, lb, pb) =
    (xs ++ ys, rw (ea, eb), omega (arith, length-append xs ys), All-append IsPixels xs ys pa pb)

SendsPixels-of : {m n : ℕ} {r : Outcome (List Bytes)} → m ≡ n → SendsPixels m r → SendsPixels n r
SendsPixels-of e (ms, sent, count, pixels) = (ms, sent, count ∙ e, pixels)

send_columns-SendsPixels :
    (rounds i : ℕ) (row : Bytes)
    → i + rounds ≤ length row
    → SendsPixels rounds (send_columns rounds i row)
unfolding send_columns
send_columns-SendsPixels zero i row h = ([], refl, refl, tt)
send_columns-SendsPixels (suc rounds) i row h =
    let (b, found) = get_elem?_lt row i (omega arith) in
    SendsPixels-of (omega arith) (
      then_send-SendsPixels 1 rounds _ _
        (rw found (send_data b, refl, refl, ((b % 256, refl, omega arith), tt)))
        (send_columns-SendsPixels rounds (i + 1) row (omega arith)))

-- Whatever the character, eight bytes of pixels are sent, and no read leaves the font.
pub putc-SendsPixels : (c : ℕ) → SendsPixels 8 (putc c)
unfolding putc
putc-SendsPixels c =
    let (row, found, eight) = row_found (printable c - 32) (ground arith) in
    rw found (send_columns-SendsPixels 8 0 row (omega arith))

-- Every text can be sent, whatever its bytes: the table of glyphs is never read outside, and for
-- each character of the text eight messages go out that carry one byte of pixels each.
pub puts-SendsPixels : (s : Bytes) → SendsPixels (8 * length s) (puts s)
unfolding puts
puts-SendsPixels [] = ([], refl, omega arith, tt)
puts-SendsPixels (c ∷ s) =
    SendsPixels-of (omega arith)
      (then_send-SendsPixels 8 (8 * length s) _ _ (putc-SendsPixels c) (puts-SendsPixels s))

-- The column that the two column commands set together, and the page.
abbrev pub position_of : List Bytes → Option (ℕ × ℕ)
position_of ((_ ∷ page ∷ []) ∷ (_ ∷ low ∷ []) ∷ (_ ∷ high ∷ []) ∷ []) =
    some ((high - 0x10) * 16 + low, page - 0xb0)
position_of _ = none

abbrev nibble_test : ℕ → Bool
nibble_test x = bit_and x 0x0f == x % 16 && bit_and (x / 2 ^ 4) 0x0f == x / 16

nibbles : every nibble_test 256 ≡ true
unfolding every
nibbles = refl

nibble_values : (x : ℕ) → x < 256 → (bit_and x 0x0f ≡ x % 16) × (bit_and (x / 2 ^ 4) 0x0f ≡ x / 16)
nibble_values x h = ground (arith, every_applies nibble_test 256 x nibbles h)

-- For a column below 32 and a row below 8, the three commands of set_position name the page `row`
-- and the pixel column `8 * column`.
pub position_of-set_position :
    (column row : ℕ)
    → column < 32
    → row < 8
    → position_of (set_position column row) ≡ some (8 * column, row)
unfolding set_position
position_of-set_position column row hc hr =
    let x = 8 * column in
    let e : x % 2 ^ 32 ≡ x = omega arith in
    let f : (176 + row) % 2 ^ 32 % 256 ≡ 176 + row = omega arith in
    let (low, high) = nibble_values x (omega arith) in rw (e, f, low, high) (ground arith)

clear_row_total : (rounds : ℕ) → (ms : List Bytes) × (clear_row rounds ≡ ok ms)
unfolding clear_row
clear_row_total zero = ([], refl)
clear_row_total (suc rounds) =
    let (xs, ex, _, _) = putc-SendsPixels b' ' in
    let (ys, ey) = clear_row_total rounds in (xs ++ ys, rw (ex, ey))

clear_rows_total : (rounds j : ℕ) → (ms : List Bytes) × (clear_rows rounds j ≡ ok ms)
unfolding clear_rows
clear_rows_total zero j = ([], refl)
clear_rows_total (suc rounds) j =
    let (xs, ex) = clear_row_total 16 in
    let (ys, ey) = clear_rows_total rounds (j + 1) in (set_position 0 j ++ xs ++ ys, rw (ex, ey))

clear_display_total : (ms : List Bytes) × (clear_display ≡ ok ms)
unfolding clear_display
clear_display_total =
    let (xs, ex) = clear_rows_total 8 0 in
    (send_command 0xae ++ xs ++ send_command 0xaf ++ set_position 0 0, rw ex)

-- Setting the display up runs to its end, for all answers of open and ioctl. It returns 0 exactly
-- if neither is negative, and sends nothing exactly if it returns -1.
pub init_total :
    (fd access : ℤ)
    → (ret : ℤ) × (sent : List Bytes) × (init fd access ≡ ok (ret, sent))
      × ((ret ≡ pos 0) ↔ ((pos 0 ≤ℤ fd) × (pos 0 ≤ℤ access)))
      × ((sent ≡ []) ↔ (ret ≡ negsuc 0))
unfolding init
init_total fd access =
    let (ms, cleared) = clear_display_total in
    elim (Bool-cases (ltb_ℤ fd (pos 0))) [
      | inl closed ↦ (negsuc 0, [], rw closed, ground arith, ground arith)
      | inr opened ↦ elim (Bool-cases (ltb_ℤ access (pos 0))) [
        | inl refused ↦ (negsuc 0, [], rw (opened, refused), ground arith, ground arith)
        | inr granted ↦ (
          pos 0,
          send_commands init_commands ++ ms,
          rw (opened, granted, cleared),
          ground arith,
          unfold send_commands in (λ e. cc, λ e. cc),
        )
      ]
    ]
