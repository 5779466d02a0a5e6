-- ===== src/Kernel/Screen/Cursor.antt =====
-- Writing never leaves the buffer, and the cursor goes through it row by row.
use conc_os.Common.{
  ℕ, zero, suc, ◌+◌, ◌*◌, ◌%◌, ◌/◌, subst, ◌<◌, ◌≡◌, ◌≢◌, refl, ◌∙◌, List, [], ◌∷◌, Option, none,
  some, ◌==◌, if◌then◌else◌, length, set, get_elem?, length-set, lt→ltb, ne→==, ==_iff, ℕ_discrete,
  ap, ap₂, All, arith,
}
use mathlib.Core.Path.{fun_ext}
use conc_os.Kernel.Screen.{ScreenChar, ScreenPos, Writer, incr_row, incr_col, write_byte, write_str}

-- Rows of the buffer's width, as many as its height, and a cursor inside.
pub record IsWriter (w : Writer) : Type 0 where
  pub row_inside : w.position.row < 25
  pub col_inside : w.position.col < 80
  pub height : length w.chars ≡ 25
  pub widths : All (λ line. length line ≡ 80) w.chars

set-All :
    {A : Type 0} (P : A → Type 0) (xs : List A) (i : ℕ) (x : A)
    → P x
    → All P xs
    → All P (set xs i x)
set-All P [] i x p v = tt
set-All P (y ∷ xs) zero x p v = (p, v.1)
set-All P (y ∷ xs) (suc i) x p v = (v.0, set-All P xs i x p v.1)

get-All :
    {A : Type 0} (P : A → Type 0) (xs : List A) (i : ℕ)
    → i < length xs
    → All P xs
    → (x : A) × (get_elem? xs i ≡ some x) × P x
get-All P [] i h v = absurd (omega arith)
get-All P (y ∷ xs) zero h v = (y, refl, v.0)
get-All P (y ∷ xs) (suc i) h v = get-All P xs i (omega arith) v.1

incr_row_inside : (p : ScreenPos) → p.row < 25 → ((incr_row p).row < 25) × ((incr_row p).col < 80)
unfolding incr_row
incr_row_inside p h = ground arith

incr_col_inside :
    (p : ScreenPos) → p.row < 25 → p.col < 80 → ((incr_col p).row < 25) × ((incr_col p).col < 80)
unfolding incr_col
incr_col_inside p h k = ground arith

-- The place in the buffer, counted row by row.
abbrev pub place : ScreenPos → ℕ
place p = p.row * 80 + p.col

incr_col_place :
    (p : ScreenPos) → p.row < 25 → p.col < 80 → place (incr_col p) ≡ (place p + 1) % 2000
unfolding incr_col
incr_col_place p h k = ground arith

get_elem?-set :
    {A : Type 0} (xs : List A) (i j : ℕ) (x : A)
    → i < length xs
    → get_elem? (set xs i x) j ≡ (if i == j then some x else get_elem? xs j)
get_elem?-set [] i j x h = absurd (omega arith)
get_elem?-set (y ∷ xs) zero zero x h = refl
get_elem?-set (y ∷ xs) zero (suc j) x h = ground arith
get_elem?-set (y ∷ xs) (suc i) zero x h = ground arith
get_elem?-set (y ∷ xs) (suc i) (suc j) x h = get_elem?-set xs i j x (omega arith) ∙ ground arith

-- The character at a place.
abbrev cell_in : Option (List ScreenChar) → ℕ → Option ScreenChar
cell_in none col = none
cell_in (some line) col = get_elem? line col

unfoldable pub cell : List (List ScreenChar) → ℕ → Option ScreenChar
cell rows p = cell_in (get_elem? rows (p / 80)) (p % 80)

cell-set :
    (rows : List (List ScreenChar)) (line : List ScreenChar) (row col p : ℕ) (c : ScreenChar)
    → get_elem? rows row ≡ some line
    → row < length rows
    → col < length line
    → col < 80
    → cell (set rows row (set line col c)) p ≡ (if row * 80 + col == p then some c else cell rows p)
unfolding cell
cell-set rows line row col p c found h k small = elim (ℕ_discrete row (p / 80)) [
  | yes same ↦
      let here : get_elem? rows (p / 80) ≡ some line =
        subst (λ r. get_elem? rows r ≡ some line) same found in
      rw
        (
          get_elem?-set rows row (p / 80) (set line col c) h,
          (==_iff row (p / 80)).1 same,
          get_elem?-set line col (p % 80) c k,
          here,
        )
        (ground arith)
  | no other ↦ rw (
    get_elem?-set rows row (p / 80) (set line col c) h,
    ne→== row (p / 80) other,
    ne→== (row * 80 + col) p (λ e. other (omega (arith, e))),
  )
]

-- What a text does to a screen whose places are counted from 0 to 1999: a newline goes to the start
-- of the next row, any other byte is drawn at the cursor, which then moves on, and behind the last
-- place comes the first.
unfoldable pub cursor : ℕ → List ℕ → ℕ
cursor at [] = at
cursor at (byte ∷ bytes) =
    cursor (if byte == b'\n' then (at / 80 + 1) % 25 * 80 else (at + 1) % 2000) bytes

unfoldable pub drawn : (ℕ → Option ScreenChar) → ℕ → ℕ → List ℕ → ℕ → Option ScreenChar
drawn screen color at [] p = screen p
drawn screen color at (byte ∷ bytes) p =
    let c : ScreenChar = record { ascii_character = byte; color = color } in
    drawn (λ q. if byte == b'\n' then screen q else if at == q then some c else screen q) color
      (if byte == b'\n' then (at / 80 + 1) % 25 * 80 else (at + 1) % 2000) bytes p

-- A character goes to the place of the cursor.
write_char :
    (w : Writer) (byte : ℕ)
    → IsWriter w
    → byte ≢ b'\n'
    → (w' : Writer) × (write_byte w byte ≡ some w')
      × IsWriter w'
      × (place w'.position ≡ (place w.position + 1) % 2000)
      × (w'.color ≡ w.color)
      × ((p : ℕ)
          → cell w'.chars p ≡ (
              if place w.position == p
              then some (record { ascii_character = byte; color = w.color })
              else cell w.chars p))
unfolding write_byte
write_char w byte v ne =
    let (line, found, wide) =
      get-All (λ (l : List ScreenChar). length l ≡ 80) w.chars w.position.row
        (omega (arith, v.height, v.row_inside)) v.widths in
    let c : ScreenChar = record { ascii_character = byte; color = w.color } in
    let rows = set w.chars w.position.row (set line w.position.col c) in
    let inside = incr_col_inside w.position v.row_inside v.col_inside in
    (
      record w { chars = rows; position = incr_col w.position },
      rw (
        ne→== byte b'\n' ne,
        found,
        lt→ltb w.position.col (length line) (omega (arith, wide, v.col_inside)),
      ),
      record {
        row_inside = inside.0;
        col_inside = inside.1;
        height = length-set w.chars w.position.row (set line w.position.col c) ∙ v.height;
        widths =
            set-All (λ (l : List ScreenChar). length l ≡ 80) w.chars w.position.row
              (set line w.position.col c) (length-set line w.position.col c ∙ wide) v.widths;
      },
      incr_col_place w.position v.row_inside v.col_inside,
      refl,
      λ p.
          cell-set w.chars line w.position.row w.position.col p c found
            (omega (arith, v.height, v.row_inside)) (omega (arith, wide, v.col_inside))
            v.col_inside,
    )

newline_place :
    (p : ScreenPos) → p.row < 25 → p.col < 80 → place (incr_row p) ≡ (place p / 80 + 1) % 25 * 80
unfolding incr_row
newline_place p h k = elim (ℕ_discrete (suc p.row) 25) [
  | yes last ↦ rw ((==_iff (suc p.row) 25).1 last) (omega arith)
  | no more ↦ rw (ne→== (suc p.row) 25 more) (omega arith)
]

newline_lem :
    (w : Writer) (byte : ℕ)
    → byte ≡ b'\n'
    → write_byte w byte ≡ some (record w { position = incr_row w.position })
unfolding write_byte
newline_lem w byte e = rw ((==_iff byte b'\n').1 e)

write_step :
    (byte : ℕ) (bytes : List ℕ) (w w1 w2 : Writer)
    → write_byte w byte ≡ some w1
    → write_str bytes w1 ≡ some w2
    → write_str (byte ∷ bytes) w ≡ some w2
unfolding write_str
write_step byte bytes w w1 w2 e f = rw (write_str, e) f

-- Any one byte.
write_any :
    (w : Writer) (byte : ℕ)
    → IsWriter w
    → (w' : Writer) × (write_byte w byte ≡ some w')
      × IsWriter w'
      × (place w'.position ≡ (
          if byte == b'\n'
          then (place w.position / 80 + 1) % 25 * 80
          else (place w.position + 1) % 2000))
      × (w'.color ≡ w.color)
      × ((p : ℕ)
          → cell w'.chars p ≡ (
              if byte == b'\n'
              then cell w.chars p
              else if place w.position == p
              then some (record { ascii_character = byte; color = w.color })
              else cell w.chars p))
write_any w byte v = elim (ℕ_discrete byte b'\n') [
  | yes e ↦
      let inside = incr_row_inside w.position v.row_inside in
      (
        record w { position = incr_row w.position },
        newline_lem w byte e,
        record {
          row_inside = inside.0;
          col_inside = inside.1;
          height = v.height;
          widths = v.widths;
        },
        rw ((==_iff byte b'\n').1 e) (newline_place w.position v.row_inside v.col_inside),
        refl,
        λ p. rw ((==_iff byte b'\n').1 e),
      )
  | no ne ↦
      let (w', run, fine, at, same, cells) = write_char w byte v ne in
      (w', run, fine, rw (ne→== byte b'\n' ne) at, same, λ p. rw (ne→== byte b'\n' ne) (cells p))
]

drawn_ext :
    (f g : ℕ → Option ScreenChar) (color color' at at' : ℕ) (bytes : List ℕ) (p : ℕ)
    → ((q : ℕ) → f q ≡ g q)
    → color ≡ color'
    → at ≡ at'
    → drawn f color at bytes p ≡ drawn g color' at' bytes p
drawn_ext f g color color' at at' bytes p h c e =
    ap (λ (s : ℕ → Option ScreenChar). drawn s color at bytes p) (fun_ext h)
    ∙ ap₂ (λ k n. drawn g k n bytes p) c e

-- A writer whose cursor is inside the buffer writes any text without leaving the buffer; the cursor
-- ends where the text takes it, and every place shows what the text drew there, or what it showed
-- before.
pub write_str_draws :
    (bytes : List ℕ) (w : Writer)
    → IsWriter w
    → (w' : Writer) × (write_str bytes w ≡ some w')
      × IsWriter w'
      × (place w'.position ≡ cursor (place w.position) bytes)
      × ((p : ℕ) → cell w'.chars p ≡ drawn (cell w.chars) w.color (place w.position) bytes p)
unfolding write_str cursor drawn
write_str_draws [] w v = (w, refl, v, refl, λ p. refl)
write_str_draws (byte ∷ bytes) w v =
    let (w1, run, fine, at, same, cells) = write_any w byte v in
    let (w2, rest, good, end, shown) = write_str_draws bytes w1 fine in
    (
      w2,
      write_step byte bytes w w1 w2 run rest,
      good,
      end ∙ ap (λ n. cursor n bytes) at,
      λ p. shown p ∙ drawn_ext _ _ w1.color w.color (place w1.position) _ bytes p cells same at,
    )
