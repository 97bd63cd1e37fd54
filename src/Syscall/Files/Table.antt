-- ===== src/Syscall/Files/Table.antt =====
-- `sys_open` of kernel/syscall.c: which descriptor a program gets.
use ovsb_mk.Base.{
  ℕ, zero, suc, ◌+◌, ◌≤◌, ◌<◌, ◌≡◌, ◌≢◌, ◌⊎◌, inl, inr, refl, Bool, true, false, ◌||◌, none, some,
  arith, Bool-cases, ℕ_discrete,
}
use ovsb_mk.Syscall.Types.{Fd, System, failure}
use ovsb_mk.Syscall.Files.{
  first_unused, alloc_fd, str_equal, dev_tty, dev_stdin, dev_stdout, dev_stderr, path_name,
  open_path, sys_open,
}

-- The first entry from `lo` to below `hi` that is not in use.
pub record First (fds : ℕ → Fd) (lo hi i : ℕ) : Type 0 where
  pub above : lo ≤ i
  pub below : i < hi
  pub unused : (fds i).used ≡ false
  pub earlier : (j : ℕ) → lo ≤ j → j < i → (fds j).used ≡ true

first_unused-cases :
    (fds : ℕ → Fd) (i n : ℕ)
    → ((k : ℕ) × (first_unused fds i n ≡ some k) × First fds i (i + n) k)
      ⊎ ((first_unused fds i n ≡ none) × ((j : ℕ) → i ≤ j → j < i + n → (fds j).used ≡ true))
unfolding first_unused
first_unused-cases fds i zero = inr (refl, λ j lo hi. absurd (omega arith))
first_unused-cases fds i (suc n) = elim (Bool-cases (fds i).used) [
  | inr free ↦ inl (
    i,
    rw free refl,
    record {
      above = omega arith;
      below = omega arith;
      unused = free;
      earlier = λ j lo hi. absurd (omega arith);
    },
  )
  | inl busy ↦ elim (first_unused-cases fds (i + 1) n) [
    | inl (k, e, f) ↦ inl (
      k,
      rw busy e,
      record {
        above = omega (arith, f.above);
        below = omega (arith, f.below);
        unused = f.unused;
        earlier = λ j lo hi. elim (ℕ_discrete j i) [
          | yes same ↦ rw same busy
          | no ne ↦ f.earlier j (omega arith) hi
        ];
      },
    )
    | inr (e, all) ↦ inr (
      rw busy e,
      λ j lo hi. elim (ℕ_discrete j i) [
        | yes same ↦ rw same busy
        | no ne ↦ all j (omega arith) (omega arith)
      ],
    )
  ]
]

-- The path names a terminal device.
abbrev pub is_device : System → ℕ → Bool
is_device s path =
    str_equal s.bytes path dev_tty
    || str_equal s.bytes path dev_stdin
    || str_equal s.bytes path dev_stdout
    || str_equal s.bytes path dev_stderr

-- The descriptor `i` has been opened: it was the first one free, it begins at 0, its name is the
-- path cut to 255 characters, and no other descriptor has changed.
pub record Opened (s s' : System) (path i : ℕ) : Type 0 where
  pub first : First s.fds 3 16 i
  pub entry : s'.fds i ≡ record { used = true; name = path_name s.bytes path 255; pos = 0 }
  pub others : (j : ℕ) → j ≢ i → s'.fds j ≡ s.fds j

-- `sys_open` of a device gives one of the descriptors 0 to 2 and changes nothing; any other path
-- gets the first free descriptor, or -1 if all 13 are in use, and then nothing has changed.
pub sys_open-Opened :
    (s : System) (path : ℕ)
    → ((is_device s path ≡ true) × ((sys_open s path).0 < 3) × ((sys_open s path).1 ≡ s))
      ⊎ ((is_device s path ≡ false)
          × (((i : ℕ) × ((sys_open s path).0 ≡ i) × Opened s (sys_open s path).1 path i)
              ⊎ ((sys_open s path ≡ (failure, s))
                  × ((j : ℕ) → 3 ≤ j → j < 16 → (s.fds j).used ≡ true))))
unfolding sys_open
sys_open-Opened s path = elim (Bool-cases (is_device s path)) [
  | inl device ↦ inl (device, ground (arith, device), ground (arith, device))
  | inr plain ↦
      let file : sys_open s path ≡ open_path s path (alloc_fd s) = ground (arith, plain) in
      inr (plain, rw file (opened (first_unused-cases s.fds 3 13)))
]
  where
    opened :
        ((k : ℕ) × (first_unused s.fds 3 13 ≡ some k) × First s.fds 3 16 k)
          ⊎ ((first_unused s.fds 3 13 ≡ none) × ((j : ℕ) → 3 ≤ j → j < 16 → (s.fds j).used ≡ true))
        → ((i : ℕ) × ((open_path s path (alloc_fd s)).0 ≡ i)
            × Opened s (open_path s path (alloc_fd s)).1 path i)
          ⊎ ((open_path s path (alloc_fd s) ≡ (failure, s))
              × ((j : ℕ) → 3 ≤ j → j < 16 → (s.fds j).used ≡ true))
    opened (inl (k, e, f)) =
        unfold alloc_fd open_path in
        rw e (
          inl (
            k,
            refl,
            record { first = f; entry = ground arith; others = λ j ne. ground (arith, ne) },
          ))
    opened (inr (e, all)) = unfold alloc_fd open_path in rw e (inr (refl, all))
