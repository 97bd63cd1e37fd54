-- ===== src/Vesa/Glyph.antt =====
-- lib/gui/vesa.c: the array that `vesa_draw_cell` fills before it copies it to the screen.
use ovsb_mk.Base.{
  ℕ, zero, suc, ◌+◌, ◌*◌, ◌/◌, ◌<◌, ◌≡◌, ◌∙◌, arith, inl, inr, Bool, true, false, ◌&&◌, ◌==◌, ltb,
  if◌then◌else◌, Bool-cases, ==_iff,
}
use ovsb_mk.Vesa.{
  CellArray, set_cell, clear_columns, clear_rows, cell_columns, cell_rows, printable, glyph_row,
  bit_set,
}
use ovsb_mk.Vesa.Rect.{between}

clear_columns-between :
    (cell : CellArray) (bg r cl n i j : ℕ)
    → clear_columns cell bg r cl n i j ≡ (if (i == r) && between cl n j then bg else cell i j)
unfolding clear_columns
clear_columns-between cell bg r cl zero i j = ground arith
clear_columns-between cell bg r cl (suc n) i j =
    ground (arith, clear_columns-between (set_cell cell r cl bg) bg r (cl + 1) n i j)

clear_rows-between :
    (cell : CellArray) (bg r n i j : ℕ)
    → clear_rows cell bg r n i j ≡ (if between r n i && ltb j 8 then bg else cell i j)
unfolding clear_rows
clear_rows-between cell bg r zero i j = ground arith
clear_rows-between cell bg r (suc n) i j = ground (
  arith,
  clear_rows-between (clear_columns cell bg r 0 8) bg (r + 1) n i j,
  clear_columns-between cell bg r 0 8 i j,
)

-- A column that is set for two rows.
two_set :
    (cell : CellArray) (bits fg r cl i j : ℕ)
    → (if bit_set bits cl then set_cell (set_cell cell (r * 2) cl fg) (r * 2 + 1) cl fg else cell) i
        j
      ≡ (if ((i / 2 == r) && (j == cl)) && bit_set bits j then fg else cell i j)
two_set cell bits fg r cl i j = elim (Bool-cases (j == cl)) [
  | inl same ↦
      (let equal : j ≡ cl = (==_iff j cl).0 same in
        let here = set_here (bit_set bits cl) in rw equal here)
  | inr other ↦ set_elsewhere other (bit_set bits cl) (bit_set bits j)
]
  where
    set_here :
        (bit : Bool)
        → (if bit then set_cell (set_cell cell (r * 2) cl fg) (r * 2 + 1) cl fg else cell) i cl
          ≡ (if ((i / 2 == r) && (cl == cl)) && bit then fg else cell i cl)
    set_here true = ground arith
    set_here false = ground arith

    set_elsewhere :
        (j == cl) ≡ false
        → (bit bit' : Bool)
        → (if bit then set_cell (set_cell cell (r * 2) cl fg) (r * 2 + 1) cl fg else cell) i j
          ≡ (if ((i / 2 == r) && (j == cl)) && bit' then fg else cell i j)
    set_elsewhere other true bit' = ground (arith, other)
    set_elsewhere other false bit' = ground (arith, other)

cell_columns-between :
    (cell : CellArray) (bits fg r cl n i j : ℕ)
    → cell_columns cell bits fg r cl n i j
      ≡ (if ((i / 2 == r) && between cl n j) && bit_set bits j then fg else cell i j)
unfolding cell_columns
cell_columns-between cell bits fg r cl zero i j = ground arith
cell_columns-between cell bits fg r cl (suc n) i j =
    let two = set_cell (set_cell cell (r * 2) cl fg) (r * 2 + 1) cl fg in
    let rest =
      cell_columns-between (if bit_set bits cl then two else cell) bits fg r (cl + 1) n i j in
    let last = one_more (bit_set bits j) (cell i j) in
    rest ∙ rw (two_set cell bits fg r cl i j) last
  where
    one_more :
        (bit : Bool) (old : ℕ)
        → (if ((i / 2 == r) && between (cl + 1) n j) && bit
            then fg
            else (if ((i / 2 == r) && (j == cl)) && bit then fg else old))
          ≡ (if ((i / 2 == r) && between cl (suc n) j) && bit then fg else old)
    one_more bit old = ground arith

cell_rows-between :
    (cell : CellArray) (c fg r n i j : ℕ)
    → cell_rows cell c fg r n i j ≡ (
        if (between r n (i / 2) && ltb j 8) && bit_set (glyph_row c (i / 2)) j
        then fg
        else cell i j)
unfolding cell_rows
cell_rows-between cell c fg r zero i j = ground arith
cell_rows-between cell c fg r (suc n) i j =
    let row = cell_columns cell (glyph_row c r) fg r 0 8 in
    let rest = cell_rows-between row c fg (r + 1) n i j in
    let last = one_more (i / 2) (λ k. bit_set (glyph_row c k) j) (cell i j) in
    rest ∙ rw (cell_columns-between cell (glyph_row c r) fg r 0 8 i j) last
  where
    one_more :
        (k : ℕ) (bit : ℕ → Bool) (old : ℕ)
        → (if (between (r + 1) n k && ltb j 8) && bit k
            then fg
            else (if ((k == r) && between 0 8 j) && bit r then fg else old))
          ≡ (if (between r (suc n) k && ltb j 8) && bit k then fg else old)
    one_more k bit old = elim (Bool-cases (k == r)) [
      | inl same ↦ (let equal : k ≡ r = (==_iff k r).0 same in rw equal ground arith)
      | inr other ↦ ground (arith, other)
    ]

-- The colour of a cell at the row `r` and the column `cl` of its 16 and 8.
abbrev pub cell_pixel : (c fg bg r cl : ℕ) → ℕ
cell_pixel c fg bg r cl = if printable c && bit_set (glyph_row c (r / 2)) cl then fg else bg

pub drawn_cell :
    (stack : CellArray) (c fg bg r cl : ℕ)
    → r < 16
    → cl < 8
    → (if printable c
          then cell_rows (clear_rows stack bg 0 16) c fg 0 8
          else clear_rows stack bg 0 16)
        r cl
      ≡ cell_pixel c fg bg r cl
drawn_cell stack c fg bg r cl r_lt cl_lt =
    let cleared : clear_rows stack bg 0 16 r cl ≡ bg =
      ground (arith, clear_rows-between stack bg 0 16 r cl, r_lt, cl_lt) in
    let glyph = cell_rows-between (clear_rows stack bg 0 16) c fg 0 8 r cl in
    by_kind (printable c) cleared (glyph ∙ inside (bit_set (glyph_row c (r / 2)) cl) cleared)
  where
    inside :
        (bit : Bool)
        → clear_rows stack bg 0 16 r cl ≡ bg
        → (if (between 0 8 (r / 2) && ltb cl 8) && bit then fg else clear_rows stack bg 0 16 r cl)
          ≡ (if bit then fg else bg)
    inside bit e = ground (arith, e, r_lt, cl_lt)

    by_kind :
        (kind : Bool)
        → clear_rows stack bg 0 16 r cl ≡ bg
        → cell_rows (clear_rows stack bg 0 16) c fg 0 8 r cl
          ≡ (if bit_set (glyph_row c (r / 2)) cl then fg else bg)
        → (if kind then cell_rows (clear_rows stack bg 0 16) c fg 0 8 else clear_rows stack bg 0 16)
            r cl
          ≡ (if kind && bit_set (glyph_row c (r / 2)) cl then fg else bg)
    by_kind true cleared drawn = drawn
    by_kind false cleared drawn = cleared
