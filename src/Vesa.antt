-- ===== src/Vesa.antt =====
-- lib/gui/vesa.c: drawing into the frame buffer, or into the back buffer where there is one. A buffer
-- is a function from the index of a pixel to its colour; the two do not overlap. Coordinates are
-- integers, and `vesa_draw_rect` gives `none` where a sum of its arguments is no `int`, which C
-- leaves undefined; the index of a pixel is a `uint32_t`.
pub mod Font
pub mod Rect
pub mod Glyph
pub mod Cell
pub mod Text
pub mod Typing
pub mod Stale
pub mod Fill
pub mod Flush
mod Tests
use Prim.Native.Nat.{bit_and}
use ovsb_mk.Base.{
  ℕ, zero, suc, ◌+◌, ◌-◌, ◌*◌, ◌/◌, ◌%◌, ◌^◌, List, [], ◌∷◌, Bool, true, false, not, Option, none,
  some, ◌&&◌, ◌||◌, ◌==◌, ltb, leb, if◌then◌else◌, get_or, ℤ, pos, negsuc,
}
use ovsb_mk.Base.Ints.{◌+ℤ◌, ltb_ℤ, is_int}
use ovsb_mk.Memory.Types.{Memory, update}
use ovsb_mk.Memory.Tables.{Bytes, pml4_map_phys}
use ovsb_mk.Syscall.Types.{Framebuffer, int_of}
use ovsb_mk.Vesa.Font.{font8x8}

abbrev pub Pixels : Type 0
Pixels = ℕ → ℕ

-- `g_fb` is NULL where the frame buffer is not active; `g_backbuffer` is NULL where `has_back` is
-- false.
pub record Video : Type 0 where
  pub fb : Framebuffer
  pub has_back : Bool
  pub screen : Pixels
  pub back : Pixels

unfoldable pub vesa_set_backbuffer : Video → (given : Bool) → (buf : Pixels) → Video
vesa_set_backbuffer v given buf = record v { has_back = given; back = buf }

abbrev pub vesa_has_backbuffer : Video → Bool
vesa_has_backbuffer v = v.has_back

-- What `fb_target()` points to.
abbrev pub fb_target : Video → Pixels
fb_target v = if v.has_back then v.back else v.screen

abbrev pub draw_target : Video → Pixels → Video
draw_target v b = if v.has_back then record v { back = b } else record v { screen = b }

abbrev pub stride_of : Framebuffer → ℕ
stride_of fb = fb.pitch / 4

-- An `int` as a `uint32_t`.
abbrev pub u32 : ℤ → ℕ
u32 (pos n) = n % 2 ^ 32
u32 (negsuc n) = 2 ^ 32 - 1 - n % 2 ^ 32

-- `y * stride + x`
abbrev pub pixel_at : (stride : ℕ) → (x y : ℤ) → ℕ
pixel_at stride x y = (u32 y * stride + u32 x) % 2 ^ 32

-- With the table at CR3: the result of `pml4_map_phys`.
unfoldable pub vesa_init :
    Video → Memory → Bytes → (cr3 : ℕ) → (fb : Framebuffer) → ℤ × Video × Memory × Bytes
vesa_init v m b cr3 fb =
    let fb_size = (fb.pitch * fb.height % 2 ^ 32 + 0x1FFFFF) / 2 ^ 21 * 2 ^ 21 in
    let (result, m', b') = pml4_map_phys m b cr3 fb.addr fb.addr fb_size in
    (result, record v { fb = record fb { active = true } }, m', b')

-- `rep movsq`: `n` times two pixels.
unfoldable pub fast_memcpy32 : (dst src : Pixels) → (at n : ℕ) → Pixels
fast_memcpy32 dst src at zero = dst
fast_memcpy32 dst src at (suc n) =
    fast_memcpy32 (update (update dst at (src at)) (at + 1) (src (at + 1))) src (at + 2) n

unfoldable pub vesa_flush : Video → Video
vesa_flush v =
    let pixels = v.fb.pitch * v.fb.height / 4 in
    if not v.fb.active || not v.has_back
    then v
    else record v { screen = fast_memcpy32 v.screen v.back 0 pixels }

unfoldable pub vesa_draw_pixel : Video → (x y : ℤ) → (color : ℕ) → Video
vesa_draw_pixel v x y color =
    if not v.fb.active
    then v
    else if ltb_ℤ x (pos 0) || ltb_ℤ y (pos 0) || leb v.fb.width (u32 x) || leb v.fb.height (u32 y)
    then v
    else draw_target v (update (fb_target v) (pixel_at (stride_of v.fb) x y) color)

-- `row[x] = color; .. row[x+7] = color;`
abbrev pub eight_pixels : Pixels → (at color : ℕ) → Pixels
eight_pixels b at color =
    let two = λ (b : Pixels) (k : ℕ). update (update b k color) (k + 1) color in
    two (two (two (two b at) (at + 2)) (at + 4)) (at + 6)

-- `for (x = ..; x < width; x += 8)` in a row, with `n` rounds.
unfoldable pub fill_groups : Pixels → (at color n : ℕ) → Pixels
fill_groups b at color zero = b
fill_groups b at color (suc n) = fill_groups (eight_pixels b at color) (at + 8) color n

-- The rows from `y` on, with `n` to go.
unfoldable pub fill_rows : Pixels → (stride groups color y n : ℕ) → Pixels
fill_rows b stride groups color y zero = b
fill_rows b stride groups color y (suc n) =
    fill_rows (fill_groups b (y * stride % 2 ^ 32) color groups) stride groups color (y + 1) n

unfoldable pub vesa_fill_screen : Video → (color : ℕ) → Video
vesa_fill_screen v color =
    if not v.fb.active
    then v
    else draw_target v
        (fill_rows (fb_target v) (stride_of v.fb) ((v.fb.width + 7) / 8) color 0 v.fb.height)

-- `for (px = ..; px < x1; px++)`, with `n` to go.
unfoldable pub rect_row : Pixels → (stride py px color n : ℕ) → Pixels
rect_row b stride py px color zero = b
rect_row b stride py px color (suc n) =
    rect_row (update b (pixel_at stride (pos px) (pos py)) color) stride py (px + 1) color n

-- `for (py = ..; py < y1; py++)`, with `n` to go; a row has `m` pixels.
unfoldable pub rect_rows : Pixels → (stride py px m color n : ℕ) → Pixels
rect_rows b stride py px m color zero = b
rect_rows b stride py px m color (suc n) =
    rect_rows (rect_row b stride py px color m) stride (py + 1) px m color n

-- `x < 0 ? 0 : x`
abbrev pub from_0 : ℤ → ℕ
from_0 (pos n) = n
from_0 (negsuc n) = 0

-- The end of a range that goes to `x1`, cut to the size of the screen: the rounds from `x0` on.
abbrev pub rounds_to : (x0 : ℕ) → (x1 limit : ℤ) → ℕ
rounds_to x0 x1 limit = from_0 (if ltb_ℤ limit x1 then limit else x1) - x0

-- `none` where `x + w` or `y + h` overflows.
unfoldable pub vesa_draw_rect : Video → (x y w h : ℤ) → (color : ℕ) → Option Video
vesa_draw_rect v x y w h color =
    let m = rounds_to (from_0 x) (x +ℤ w) (int_of v.fb.width) in
    let n = rounds_to (from_0 y) (y +ℤ h) (int_of v.fb.height) in
    if not v.fb.active
    then some v
    else if not (ltb_ℤ (pos 0) w) || not (ltb_ℤ (pos 0) h)
    then some v
    else if not (is_int (x +ℤ w)) || not (is_int (y +ℤ h))
    then none
    else some
        (draw_target v (rect_rows (fb_target v) (stride_of v.fb) (from_0 y) (from_0 x) m color n))

abbrev pub printable : ℕ → Bool
printable c = leb 32 c && leb c 126

-- `font8x8[(unsigned char)c - 32][row]`
abbrev pub glyph_row : (c row : ℕ) → ℕ
glyph_row c row = get_or (get_or font8x8 (c - 32) []) row 0

-- `bits & (1 << col)`
abbrev pub bit_set : (bits col : ℕ) → Bool
bit_set bits col = not (bit_and bits (2 ^ col) == 0)

-- The columns from `col` on, with `n` to go.
unfoldable pub draw_columns : Video → (x y : ℤ) → (bits color row col n : ℕ) → Video
draw_columns v x y bits color row col zero = v
draw_columns v x y bits color row col (suc n) =
    let px = x +ℤ pos col in
    let py = y +ℤ pos (row * 2) in
    let two = vesa_draw_pixel (vesa_draw_pixel v px py color) px (py +ℤ pos 1) color in
    draw_columns (if bit_set bits col then two else v) x y bits color row (col + 1) n

unfoldable pub draw_glyph : Video → (x y : ℤ) → (c color row n : ℕ) → Video
draw_glyph v x y c color row zero = v
draw_glyph v x y c color row (suc n) =
    draw_glyph (draw_columns v x y (glyph_row c row) color row 0 8) x y c color (row + 1) n

-- A character from 128 on is a negative `char`.
unfoldable pub vesa_draw_char : Video → (x y : ℤ) → (c color : ℕ) → Video
vesa_draw_char v x y c color =
    if not v.fb.active then v else if not (printable c) then v else draw_glyph v x y c color 0 8

-- From the place `cx`, `cy` on.
unfoldable pub text_from : Video → (x cx cy : ℤ) → List ℕ → (color : ℕ) → Video
text_from v x cx cy [] color = v
text_from v x cx cy (c ∷ cs) color =
    let below = text_from v x x (cy +ℤ pos 16) cs color in
    let beside = text_from (vesa_draw_char v cx cy c color) x (cx +ℤ pos 8) cy cs color in
    if c == b'\n' then below else beside

unfoldable pub vesa_draw_text : Video → (x y : ℤ) → (text : List ℕ) → (color : ℕ) → Video
vesa_draw_text v x y text color = text_from v x x y text color

-- `cell[16][8]`
abbrev pub CellArray : Type 0
CellArray = ℕ → ℕ → ℕ

abbrev pub set_cell : CellArray → (r cl v : ℕ) → CellArray
set_cell cell r cl v i j = if (i == r) && (j == cl) then v else cell i j

-- `cell[r][cl] = bg` for the columns, with `n` to go, and for the rows.
unfoldable pub clear_columns : CellArray → (bg r cl n : ℕ) → CellArray
clear_columns cell bg r cl zero = cell
clear_columns cell bg r cl (suc n) = clear_columns (set_cell cell r cl bg) bg r (cl + 1) n

unfoldable pub clear_rows : CellArray → (bg r n : ℕ) → CellArray
clear_rows cell bg r zero = cell
clear_rows cell bg r (suc n) = clear_rows (clear_columns cell bg r 0 8) bg (r + 1) n

unfoldable pub cell_columns : CellArray → (bits fg r cl n : ℕ) → CellArray
cell_columns cell bits fg r cl zero = cell
cell_columns cell bits fg r cl (suc n) =
    let two = set_cell (set_cell cell (r * 2) cl fg) (r * 2 + 1) cl fg in
    cell_columns (if bit_set bits cl then two else cell) bits fg r (cl + 1) n

unfoldable pub cell_rows : CellArray → (c fg r n : ℕ) → CellArray
cell_rows cell c fg r zero = cell
cell_rows cell c fg r (suc n) =
    cell_rows (cell_columns cell (glyph_row c r) fg r 0 8) c fg (r + 1) n

-- `dst[i] = src[i]` for 8 columns from `i` on, with `n` to go.
unfoldable pub copy_columns : Pixels → (dst : ℕ) → (src : ℕ → ℕ) → (i n : ℕ) → Pixels
copy_columns b dst src i zero = b
copy_columns b dst src i (suc n) = copy_columns (update b (dst + i) (src i)) dst src (i + 1) n

unfoldable pub copy_cell : Pixels → (stride : ℕ) → (x y : ℤ) → CellArray → (r n : ℕ) → Pixels
copy_cell b stride x y cell r zero = b
copy_cell b stride x y cell r (suc n) =
    copy_cell (copy_columns b (pixel_at stride x (y +ℤ pos r)) (cell r) 0 8) stride x y cell (r + 1)
      n

-- What stands in the array of the stack before is overwritten.
unfoldable pub vesa_draw_cell : Video → (x y : ℤ) → (c fg bg : ℕ) → (stack : CellArray) → Video
vesa_draw_cell v x y c fg bg stack =
    let background = clear_rows stack bg 0 16 in
    let cell = if printable c then cell_rows background c fg 0 8 else background in
    if not v.fb.active
    then v
    else draw_target v (copy_cell (fb_target v) (stride_of v.fb) x y cell 0 16)
