-- ===== src/Kernel/Screen.antt =====
-- kernel/src/vga.rs: the text buffer as rows of characters, and the writer's cursor. A write
-- outside the buffer is a panic, as `none`.
pub mod Cursor
use conc_os.Common.{
  ℕ, suc, ◌*◌, List, [], ◌∷◌, Option, none, some, bit_or, ltb, ◌==◌, if◌then◌else◌, length, set,
  get_elem?,
}

pub data Color : Type 0 where
  black blue green cyan red magenta brown light_gray dark_gray : Color
  light_blue light_green light_cyan light_red pink yellow white : Color

-- `Color as u8`
abbrev pub color_number : Color → ℕ
color_number black = 0
color_number blue = 1
color_number green = 2
color_number cyan = 3
color_number red = 4
color_number magenta = 5
color_number brown = 6
color_number light_gray = 7
color_number dark_gray = 8
color_number light_blue = 9
color_number light_green = 10
color_number light_cyan = 11
color_number light_red = 12
color_number pink = 13
color_number yellow = 14
color_number white = 15

-- `ColorCode::new`
unfoldable pub color_code : Color → Color → ℕ
color_code foreground background = bit_or (color_number background * 16) (color_number foreground)

pub record ScreenChar : Type 0 where
  pub ascii_character : ℕ
  pub color : ℕ

abbrev pub buffer_height : ℕ
buffer_height = 25

abbrev pub buffer_width : ℕ
buffer_width = 80

pub record ScreenPos : Type 0 where
  pub row : ℕ
  pub col : ℕ

-- `ScreenPos::incr_row` and `ScreenPos::incr_col`
unfoldable pub incr_row : ScreenPos → ScreenPos
incr_row p = record { row = if suc p.row == buffer_height then 0 else suc p.row; col = 0 }

unfoldable pub incr_col : ScreenPos → ScreenPos
unfolding incr_row
incr_col p =
    if suc p.col == buffer_width
    then incr_row (record p { col = suc p.col })
    else record p { col = suc p.col }

pub record Writer : Type 0 where
  pub position : ScreenPos
  pub color : ℕ
  pub chars : List (List ScreenChar)

-- `chars[row][col].write(..)`
abbrev put_in :
    List (List ScreenChar)
    → ℕ
    → ℕ
    → ScreenChar
    → Option (List ScreenChar)
    → Option (List (List ScreenChar))
put_in rows row col c none = none
put_in rows row col c (some line) =
    if ltb col (length line) then some (set rows row (set line col c)) else none

unfoldable pub put : List (List ScreenChar) → ℕ → ℕ → ScreenChar → Option (List (List ScreenChar))
put rows row col c = put_in rows row col c (get_elem? rows row)

-- One round of `write_str`
abbrev written : Writer → Option (List (List ScreenChar)) → Option Writer
unfolding incr_col
written w none = none
written w (some rows) = some (record w { chars = rows; position = incr_col w.position })

unfoldable pub write_byte : Writer → ℕ → Option Writer
unfolding put written incr_row
write_byte w byte =
    if byte == b'\n'
    then some (record w { position = incr_row w.position })
    else written w (
        put w.chars w.position.row w.position.col
          (record { ascii_character = byte; color = w.color }))

-- `Writer::write_str`
unfoldable pub write_str : List ℕ → Writer → Option Writer
unfolding write_byte
write_str [] w = some w
write_str (byte ∷ bytes) w = elim (write_byte w byte) [ none ↦ none | some w' ↦ write_str bytes w' ]
