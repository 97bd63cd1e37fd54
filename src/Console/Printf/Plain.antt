-- ===== src/Console/Printf/Plain.antt =====
-- `console_printf` of kernel/console.c with a format that has no conversion.
use ovsb_mk.Base.{
  ℕ, ◌≡◌, ◌∙◌, ap, sym, refl, List, [], ◌∷◌, ◌++◌, Bool, true, false, ◌&&◌, not, none, some, arith,
  ◌==◌, leb, if◌then◌else◌, length, append_nil,
}
use ovsb_mk.Console.{Screen, console_write}
use ovsb_mk.Console.Printf.{Arg, format, console_printf}

-- No character is a percent sign.
abbrev pub no_conversion : List ℕ → Bool
no_conversion [] = true
no_conversion (c ∷ cs) = not (c == b'%') && no_conversion cs

append_assoc : (xs : List ℕ) (y : ℕ) (ys : List ℕ) → (xs ++ (y ∷ [])) ++ ys ≡ xs ++ (y ∷ ys)
append_assoc [] y ys = refl
append_assoc (x ∷ xs) y ys = ap (λ l. x ∷ l) (append_assoc xs y ys)

format_plain :
    (buf fmt : List ℕ) (args : List Arg)
    → no_conversion fmt ≡ true
    → format buf fmt args ≡ some (buf ++ fmt)
unfolding format
format_plain buf [] args plain = ap some (sym (append_nil buf))
format_plain buf (c ∷ []) args plain =
    let letter : (c == b'%') ≡ false = ground (arith, plain) in rw letter refl
format_plain buf (c ∷ d ∷ ds) args plain =
    let letter : (c == b'%') ≡ false = ground (arith, plain) in
    rw (letter, format)
      (format_plain (buf ++ (c ∷ [])) (d ∷ ds) args (ground (arith, letter, plain))
        ∙ ap some (append_assoc buf c (d ∷ ds)))

-- A format without a percent sign is written as it is if it has less than 256 characters, and
-- otherwise overruns the buffer: the limit of 250 is not tested for such characters.
pub console_printf_plain :
    (s : Screen) (fmt : List ℕ) (args : List Arg)
    → no_conversion fmt ≡ true
    → console_printf s fmt args
      ≡ (if leb 256 (length fmt) then none else some (console_write s fmt))
unfolding console_printf
console_printf_plain s fmt args plain = rw (format_plain [] fmt args plain, console_printf) refl
