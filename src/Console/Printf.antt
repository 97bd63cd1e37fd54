-- ===== src/Console/Printf.antt =====
-- `console_printf` of kernel/console.c. `none` stands for what C leaves undefined: an argument that
-- is missing or of another type, `-INT_MIN`, a read behind the format, a write behind `buf`.
pub mod Numbers
pub mod Plain
use ovsb_mk.Base.{
  ℕ, zero, suc, ◌+◌, ◌-◌, ◌*◌, ◌/◌, ◌%◌, ◌^◌, List, [], ◌∷◌, ◌++◌, Bool, true, false, ◌||◌, Option,
  none, some, ◌==◌, ltb, leb, if◌then◌else◌, length, ℤ, pos, negsuc,
}
use ovsb_mk.Console.{Screen, Output, console_write}

pub data Arg : Type 0 where
  text : List ℕ → Arg
  signed : ℤ → Arg
  unsigned : ℕ → Arg

-- `d < 10 ? '0' + d : 'a' + d - 10`
abbrev pub digit : ℕ → ℕ
digit d = if ltb d 10 then b'0' + d else b'a' + d - 10

-- The loops that fill `tmp` and empty it again, with at most `places` digits in front of `done`.
unfoldable pub digits : (base places v : ℕ) → List ℕ → List ℕ
digits base zero v done = done
digits base (suc places) v done =
    let rest = digits base places (v / base) (digit (v % base) ∷ done) in
    if v == 0 then done else rest

-- The digits of a number below 2 ^ 32: at most 10, or 8 to the base 16.
unfoldable pub number : (base v : ℕ) → List ℕ
number base v = if v == 0 then b'0' ∷ [] else digits base 10 v []

-- `case 'd'`
unfoldable pub format_d : ℤ → Option (List ℕ)
format_d (pos n) = some (number 10 n)
format_d (negsuc n) = if leb (2 ^ 31 - 1) n then none else some (b'-' ∷ number 10 (n + 1))

-- The `switch`: the bytes of a conversion, and the arguments behind it.
unfoldable pub convert : ℕ → List Arg → Option (List ℕ × List Arg)
convert c args =
    if c == b's'
    then elim args [ text t ∷ rest ↦ some (t, rest) | _ ↦ none ]
    else if c == b'd'
    then elim args [
      | signed v ∷ rest ↦ elim (format_d v) [ none ↦ none | some t ↦ some (t, rest) ]
      | _ ↦ none
    ]
    else if (c == b'x') || (c == b'X')
    then elim args [ unsigned v ∷ rest ↦ some (b'0' ∷ b'x' ∷ number 16 v, rest) | _ ↦ none ]
    else some ([], args)

-- The loop over the format, with the bytes in `buf` so far. The limit of 250 is tested behind a
-- conversion only.
unfoldable pub format : (buf fmt : List ℕ) → List Arg → Option (List ℕ)
format buf [] args = some buf
format buf (c ∷ []) args = if c == b'%' then none else some (buf ++ (c ∷ []))
format buf (c ∷ d ∷ ds) args = elim (c == b'%') [
  | false ↦ format (buf ++ (c ∷ [])) (d ∷ ds) args
  | true ↦ elim (convert d args) [
    | none ↦ none
    | some (t, rest) ↦ elim (leb 250 (length (buf ++ t))) [
      | true ↦ some (buf ++ t)
      | false ↦ format (buf ++ t) ds rest
    ]
  ]
]

unfoldable pub console_printf : Screen → (fmt : List ℕ) → List Arg → Option (Screen × List Output)
console_printf s fmt args = elim (format [] fmt args) [
  | none ↦ none
  | some buf ↦ if leb 256 (length buf) then none else some (console_write s buf)
]
