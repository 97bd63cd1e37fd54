-- ===== src/Console/Text.antt =====
-- `console_write` of kernel/console.c on text that fits the row.
use ovsb_mk.Base.{
  ℕ, zero, suc, ◌+◌, ◌≤◌, ◌<◌, ◌≡◌, ◌⊎◌, ◌∙◌, inl, inr, refl, List, [], ◌∷◌, Bool, true, false,
  ◌&&◌, arith, ◌==◌, leb, length, get_or,
}
use ovsb_mk.Console.{
  Screen, type_char, console_putchar, console_write, is_printable, cell_at, put_cursor,
}

abbrev pub all_printable : List ℕ → Bool
all_printable [] = true
all_printable (c ∷ cs) = is_printable c && all_printable cs

-- `t` is the screen `s` with the text at its cursor and the cursor behind it.
pub record Shown (s t : Screen) (cs : List ℕ) : Type 0 where
  pub row : t.cursor_row ≡ s.cursor_row
  pub col : t.cursor_col ≡ s.cursor_col + length cs
  pub start : t.scroll_start ≡ s.scroll_start
  pub cells :
      (k : ℕ)
      → k < length cs
      → t.scrollback (cell_at s s.cursor_row (s.cursor_col + k)) ≡ get_or cs k 0
  pub others :
      (i : ℕ)
      → (i < cell_at s s.cursor_row s.cursor_col)
        ⊎ (cell_at s s.cursor_row (s.cursor_col + length cs) ≤ i)
      → t.scrollback i ≡ s.scrollback i

-- The screen behind a character that fits.
abbrev next : Screen → ℕ → Screen
next s c = record (put_cursor s c) { cursor_col = s.cursor_col + 1 }

type_char-next :
    (s : Screen) (c : ℕ) → s.cursor_col < 80 → is_printable c ≡ true → type_char s c ≡ next s c
unfolding type_char
type_char-next s c room shown =
    let no_line : (c == 10) ≡ false = ground (arith, shown) in
    let no_back : (c == 8) ≡ false = ground (arith, shown) in
    let fits : leb 80 s.cursor_col ≡ false = ground (arith, room) in
    rw (no_line, no_back, shown, fits, type_char) refl

Shown-next : (s t : Screen) (c : ℕ) (cs : List ℕ) → Shown (next s c) t cs → Shown s t (c ∷ cs)
Shown-next s t c cs h = record {
  row = h.row;
  col = omega (arith, h.col);
  start = h.start;
  cells = λ k lt. at k lt;
  others = λ i far. h.others i (beyond i far) ∙ elsewhere i far;
}
  where
    at :
        (k : ℕ)
        → k < length (c ∷ cs)
        → t.scrollback (cell_at s s.cursor_row (s.cursor_col + k)) ≡ get_or (c ∷ cs) k 0
    at zero lt =
        let place : cell_at s s.cursor_row (s.cursor_col + 0)
            ≡ cell_at s s.cursor_row s.cursor_col =
          omega arith in
        let here : (cell_at s s.cursor_row s.cursor_col == cell_at s s.cursor_row s.cursor_col)
            ≡ true =
          ground arith in
        rw place (h.others (cell_at s s.cursor_row s.cursor_col) (inl (omega arith)) ∙ rw here refl)
    at (suc k) lt =
        let place : cell_at s s.cursor_row (s.cursor_col + suc k)
            ≡ cell_at s s.cursor_row (s.cursor_col + 1 + k) =
          omega arith in
        rw place (h.cells k (omega arith))

    beyond :
        (i : ℕ)
        → (i < cell_at s s.cursor_row s.cursor_col)
          ⊎ (cell_at s s.cursor_row (s.cursor_col + length (c ∷ cs)) ≤ i)
        → (i < cell_at s s.cursor_row (s.cursor_col + 1))
          ⊎ (cell_at s s.cursor_row (s.cursor_col + 1 + length cs) ≤ i)
    beyond i (inl lt) = inl (omega arith)
    beyond i (inr ge) = inr (omega arith)

    elsewhere :
        (i : ℕ)
        → (i < cell_at s s.cursor_row s.cursor_col)
          ⊎ (cell_at s s.cursor_row (s.cursor_col + length (c ∷ cs)) ≤ i)
        → (next s c).scrollback i ≡ s.scrollback i
    elsewhere i (inl lt) =
        let miss : (i == cell_at s s.cursor_row s.cursor_col) ≡ false = ground arith in rw miss refl
    elsewhere i (inr ge) =
        let miss : (i == cell_at s s.cursor_row s.cursor_col) ≡ false = ground arith in rw miss refl

-- Printable text that fits the rest of the row stands at the cursor after it has been written, the
-- cursor is behind it in the same row, and no other cell has changed.
pub console_write-Shown :
    (s : Screen) (cs : List ℕ)
    → s.cursor_col + length cs ≤ 80
    → all_printable cs ≡ true
    → Shown s (console_write s cs).0 cs
unfolding console_write console_putchar
console_write-Shown s [] fits shown = record {
  row = refl;
  col = omega arith;
  start = refl;
  cells = λ k lt. absurd (omega (arith, lt));
  others = λ i far. refl;
}
console_write-Shown s (c ∷ cs) fits shown =
    let step = type_char-next s c (omega arith) (ground (arith, shown)) in
    Shown-next s (console_write (type_char s c) cs).0 c cs
      (rw step (console_write-Shown (next s c) cs (omega arith) (ground (arith, shown))))
