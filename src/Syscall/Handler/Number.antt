-- ===== src/Syscall/Handler/Number.antt =====
-- What a call of kernel/syscall.c leaves to the program that makes it through `_syscall` of
-- userland/libc/stdlib.c.
use ovsb_mk.Base.{ℕ, ◌≡◌, ap, Option, none, some, arith, ◌==◌, Bool-cases, inl, inr}
use ovsb_mk.Memory.Types.{update}
use ovsb_mk.Syscall.Types.{System, Limits, Answer}
use ovsb_mk.Syscall.Handler.{
  stores, any_touches, call, set_result, syscall_handler, in_rax, lib_syscall,
}

-- Whatever the handler does, the register RAX comes back as it was.
set_result-rax :
    (regs : ℕ → ℕ) (r : Option Answer) (q : Answer)
    → in_rax (set_result regs r) ≡ some q
    → q.0 ≡ regs 0
unfolding set_result in_rax
set_result-rax regs none q e = absurd (cc)
set_result-rax regs (some (ret, s)) q e = ap (λ (a : Answer). a.0) (same e)
  where
    same : {a b : Answer} → some a ≡ some b → b ≡ a
    same e = cc

-- A program never sees the result of a call: `_syscall` of the library returns the number of the
-- call, whenever it returns.
pub lib_syscall-number :
    (l : Limits) (s s' : System) (regs : ℕ → ℕ) (num a1 a2 a3 a4 r : ℕ)
    → lib_syscall l s regs num a1 a2 a3 a4 ≡ some (r, s')
    → r ≡ num
unfolding lib_syscall syscall_handler in_rax
lib_syscall-number l s s' regs num a1 a2 a3 a4 r e = elim (Bool-cases (num == 1)) [
  | inl ends ↦ absurd (ground (arith, e, ends))
  | inr goes ↦
      let passed = update (update (update (update (update regs 0 num) 4 a1) 3 a2) 2 a3) 1 a4 in
      elim (Bool-cases (any_touches (s.owned s.pages) (stores num a1 a2 a3 a4))) [
        | inl caught ↦ absurd (ground (arith, rw (goes, caught) at e))
        | inr apart ↦
            set_result-rax passed (call l s num a1 a2 a3 a4) (r, s') (rw (goes, apart) at e)
      ]
]
