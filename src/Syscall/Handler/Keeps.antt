-- ===== src/Syscall/Handler/Keeps.antt =====
-- The table of open files of kernel/syscall.c under every call.
use ovsb_mk.Base.{
  ℕ, zero, suc, ◌+◌, ◌%◌, ◌^◌, ◌≤◌, ◌<◌, ◌≡◌, refl, List, ℤ, negsuc, leb, ltb, ◌&&◌, ◌-◌, [], ◌∷◌,
  true, false, Option, Option-cases, none, some, arith, ◌==◌, Bool-cases, inl, inr, length,
}
use ovsb_mk.Memory.Types.{update}
use ovsb_mk.Syscall.Types.{System, Limits, Answer, Fd, int_of}
use ovsb_mk.Fat.Types.{Volume}
use ovsb_mk.Fat.Chain.{Reading, failed, got}
use ovsb_mk.Fat.Files.{fat32_read_file, fat32_delete_file}
use ovsb_mk.Fat.Tree.{fat32_mkdir, fat32_rmdir}
use ovsb_mk.Process.Scheduler.{process_exit_current}
use ovsb_mk.Process.Types.{Effect, close_files, set_rsp0, switch_to, munmap, destroy_pml4}
use ovsb_mk.Syscall.Files.{
  open_file, file_at, least_of, keys_wanted, path_name, open_path, sys_open, sys_close, close_fd,
  alloc_fd, first_unused, sys_write, sys_read, write_file, write_console, read_keyboard, read_file,
  read_part, fds_cleanup,
}
use ovsb_mk.Syscall.Handler.{
  Outcome, back, halted, stores, any_touches, call, exit_call, perform, set_result, syscall_handler,
  other_call, sys_gettimeofday, sys_disp_get_fb, sys_disp_flush, unknown_call, sys_mmap, sys_munmap,
}
use ovsb_mk.Syscall.Stat.{sys_stat, sys_fstat, fstat_standard, on_path, sys_lseek, seek, move_to}

-- Only the entries from 3 on are in use; a name fits its array, and a position 32 bits.
pub record IsValid (fds : ℕ → Fd) : Type 0 where
  pub range : (i : ℕ) → (fds i).used ≡ true → (3 ≤ i) × (i < 16)
  pub short : (i : ℕ) → length ((fds i).name) ≤ 255
  pub small : (i : ℕ) → (fds i).pos < 2 ^ 32

-- A call that returns leaves a valid table.
abbrev pub Leaves : Option Answer → Type 0
Leaves none = Unit
Leaves (some a) = IsValid a.1.fds

-- An entry from 3 on is written.
set_fd-IsValid :
    (fds : ℕ → Fd) (i : ℕ) (f : Fd)
    → IsValid fds
    → 3 ≤ i
    → i < 16
    → length f.name ≤ 255
    → f.pos < 2 ^ 32
    → IsValid (update fds i f)
set_fd-IsValid fds i f v lo hi short small = record {
  range = λ j. ground (arith, v.range j);
  short = λ j. ground (arith, v.short j);
  small = λ j. ground (arith, v.small j);
}

path_name-short : (b : ℕ → ℕ) (at n : ℕ) → length (path_name b at n) ≤ n
unfolding path_name
path_name-short b at zero = omega arith
path_name-short b at (suc n) = ground (arith, path_name-short b (at + 1) n)

first_unused-range :
    (fds : ℕ → Fd) (i n k : ℕ) → first_unused fds i n ≡ some k → (i ≤ k) × (k < i + n)
unfolding first_unused
first_unused-range fds i zero k e = absurd (cc)
first_unused-range fds i (suc n) k e = ground (arith, e, first_unused-range fds (i + 1) n k)

file_at-range : (fds : ℕ → Fd) (fd : ℤ) (i : ℕ) → file_at fds fd ≡ some i → (3 ≤ i) × (i < 16)
unfolding file_at
file_at-range fds (negsuc n) i e = absurd (cc)
file_at-range fds (ℤ.pos k) i e = ground (arith, e)

open_file-range : (s : System) (a1 i : ℕ) → open_file s a1 ≡ some i → (3 ≤ i) × (i < 16)
unfolding open_file
open_file-range s a1 i e = file_at-range s.fds (int_of a1) i e

module _ (l : Limits) (s : System) (v : IsValid s.fds) where
  sys_stat-Leaves : (path st : ℕ) → Leaves (sys_stat l s path st)
  unfolding sys_stat
  sys_stat-Leaves path st = ground (arith, v)

  sys_fstat-Leaves : (a1 st : ℕ) → Leaves (sys_fstat l s a1 st)
  unfolding sys_fstat fstat_standard
  sys_fstat-Leaves a1 st = ground (arith, v)

  on_path-Leaves :
      (path : ℕ) (f : Volume → List ℕ → Option (ℤ × Volume)) → Leaves (on_path l s path f)
  unfolding on_path
  on_path-Leaves path f = ground (arith, v)

  other_call-Leaves : (num a1 a2 a3 a4 : ℕ) → Leaves (other_call s num a1 a2 a3 a4)
  unfolding other_call sys_gettimeofday sys_disp_get_fb sys_disp_flush unknown_call sys_mmap
      sys_munmap
  other_call-Leaves num a1 a2 a3 a4 = ground (arith, v)

  sys_write-Leaves : (a1 a2 a3 : ℕ) → Leaves (sys_write l s a1 a2 a3)
  unfolding sys_write write_console
  sys_write-Leaves a1 a2 a3 = elim (Option-cases (open_file s a1)) [
    | inl e ↦ rw (e, sys_write) (ground (arith, v))
    | inr (i, e) ↦ rw (e, sys_write) (write (int_of a3) i)
  ]
    where
      write : (c : ℤ) (i : ℕ) → Leaves (write_file l s i a2 c)
      write (negsuc n) i = unfold write_file in tt
      write (ℤ.pos n) i = unfold write_file in ground (arith, v)

  sys_open-Leaves : (path : ℕ) → Leaves (some (sys_open s path))
  unfolding sys_open
  sys_open-Leaves path = ground (arith, v, opened)
    where
      fill : (r : Option ℕ) → first_unused s.fds 3 13 ≡ r → IsValid (open_path s path r).1.fds
      fill none e = unfold open_path in v
      fill (some i) e =
          let (lo, hi) = first_unused-range s.fds 3 13 i e in
          unfold open_path in
          set_fd-IsValid s.fds i
            (record { used = true; name = path_name s.bytes path 255; pos = 0 }) v lo (omega arith)
            (path_name-short s.bytes path 255) (omega arith)

      opened : IsValid (open_path s path (alloc_fd s)).1.fds
      opened = fill (alloc_fd s) (unfold alloc_fd in refl)

  sys_close-Leaves : (a1 : ℕ) → Leaves (some (sys_close s a1))
  unfolding sys_close
  sys_close-Leaves a1 = close (int_of a1)
    where
      close : (c : ℤ) → IsValid (close_fd s c).fds
      close (negsuc n) = unfold close_fd in v
      close (ℤ.pos i) =
          unfold close_fd in
          (elim (Bool-cases (leb 3 i && ltb i 16)) [
            | inl inside ↦ rw inside (
                set_fd-IsValid s.fds i (record (s.fds i) { used = false }) v
                  (ground (arith, inside)) (ground (arith, inside)) (v.short i) (v.small i))
            | inr outside ↦ rw outside v
          ])

  move_to-IsValid : (i at : ℕ) → 3 ≤ i → i < 16 → IsValid (move_to s i at).fds
  move_to-IsValid i at lo hi =
      set_fd-IsValid s.fds i (record (s.fds i) { pos = at % 2 ^ 32 }) v lo hi (v.short i)
        (omega arith)

  sys_lseek-Leaves : (a1 off whence : ℕ) → Leaves (sys_lseek l s a1 off whence)
  unfolding sys_lseek seek
  sys_lseek-Leaves a1 off whence = elim (Option-cases (open_file s a1)) [
    | inl e ↦ rw (e, sys_lseek) v
    | inr (i, e) ↦
        let (lo, hi) = open_file-range s a1 i e in
        rw (e, sys_lseek) (ground (arith, v, λ (at : ℕ). move_to-IsValid i at lo hi))
  ]

  read_part-Leaves :
      (i buf : ℕ) (count : ℤ) (contents : List ℕ)
      → 3 ≤ i
      → i < 16
      → Leaves (read_part s i buf count contents)
  unfolding read_part
  read_part-Leaves i buf (negsuc n) contents lo hi = v
  read_part-Leaves i buf (ℤ.pos n) contents lo hi =
      let m = least_of n (length contents - (s.fds i).pos) in
      let moved =
        set_fd-IsValid s.fds i (record (s.fds i) { pos = ((s.fds i).pos + m) % 2 ^ 32 }) v lo hi
          (v.short i) (omega arith) in
      ground (arith, v, moved)

  read_file-Leaves : (i buf : ℕ) (count : ℤ) → 3 ≤ i → i < 16 → Leaves (read_file l s i buf count)
  unfolding read_file
  read_file-Leaves i buf count lo hi =
      go (fat32_read_file s.volume l.hops l.rounds (s.fds i).name 4096) refl
    where
      go :
          (r : Option Reading)
          → fat32_read_file s.volume l.hops l.rounds (s.fds i).name 4096 ≡ r
          → Leaves (read_file l s i buf count)
      go none e = rw (e, read_file) tt
      go (some failed) e = rw (e, read_file) v
      go (some (got contents)) e = rw (e, read_file) (read_part-Leaves i buf count contents lo hi)

  sys_read-Leaves : (a1 a2 a3 : ℕ) → Leaves (sys_read l s a1 a2 a3)
  unfolding sys_read read_keyboard
  sys_read-Leaves a1 a2 a3 = elim (Option-cases (keys_wanted (int_of a1) a2 (int_of a3))) [
    | inr (n, e) ↦ rw (e, sys_read) (ground (arith, v))
    | inl e ↦ elim (Option-cases (open_file s a1)) [
      | inl q ↦ rw (e, q, sys_read) v
      | inr (i, q) ↦
          let (lo, hi) = open_file-range s a1 i q in
          rw (e, q, sys_read) (read_file-Leaves i a2 (int_of a3) lo hi)
    ]
  ]

  call-Leaves : (num a1 a2 a3 a4 : ℕ) → Leaves (call l s num a1 a2 a3 a4)
  unfolding call
  call-Leaves num a1 a2 a3 a4 = ground (
    arith,
    sys_write-Leaves a1 a2 a3,
    sys_read-Leaves a1 a2 a3,
    sys_open-Leaves a1,
    sys_close-Leaves a1,
    sys_fstat-Leaves a1 a2,
    sys_stat-Leaves a1 a2,
    sys_lseek-Leaves a1 a2 a3,
    on_path-Leaves a1 (λ (w : Volume) (name : List ℕ). fat32_delete_file w l.hops name),
    on_path-Leaves a1 (λ (w : Volume) (name : List ℕ). fat32_mkdir w l.hops name),
    on_path-Leaves a1 (λ (w : Volume) (name : List ℕ). fat32_rmdir w l.hops l.rounds name),
    other_call-Leaves num a1 a2 a3 a4,
  )

perform-IsValid : (s : System) (fx : List Effect) → IsValid s.fds → IsValid (perform s fx).fds
unfolding perform
perform-IsValid s [] v = v
perform-IsValid s (close_files ∷ fx) v = perform-IsValid (fds_cleanup s) fx (cleaned s v)
  where
    cleaned : (s : System) → IsValid s.fds → IsValid (fds_cleanup s).fds
    cleaned s v =
        unfold fds_cleanup in
        record {
          range = λ i. ground (arith, v.range i);
          short = λ i. ground (arith, v.short i);
          small = λ i. ground (arith, v.small i);
        }
perform-IsValid s (set_rsp0 r ∷ fx) v = perform-IsValid _ fx v
perform-IsValid s (switch_to i j ∷ fx) v = perform-IsValid _ fx v
perform-IsValid s (munmap p n ∷ fx) v = perform-IsValid _ fx v
perform-IsValid s (destroy_pml4 p ∷ fx) v = perform-IsValid _ fx v

-- The state behind a call.
abbrev pub state_of : Outcome → System
state_of (back regs s) = s
state_of (halted s) = s

some_back : {a b : Outcome} → some a ≡ some b → a ≡ b
some_back e = cc

exit_call-IsValid : (s : System) (a1 : ℕ) → IsValid s.fds → IsValid (exit_call s a1).fds
unfolding exit_call
exit_call-IsValid s a1 v =
    let r = process_exit_current s.procs (int_of a1) in
    perform-IsValid (record s { procs = r.0 }) r.1 v

set_result-IsValid :
    (regs : ℕ → ℕ) (r : Option Answer) (o : Outcome)
    → Leaves r
    → set_result regs r ≡ some o
    → IsValid (state_of o).fds
unfolding set_result
set_result-IsValid regs none o v e = absurd (cc)
set_result-IsValid regs (some (ret, s)) o v e = rw (← some_back e) v

-- From a valid table of files, every call whose stores through pointers of the program stay away
-- from the kernel's own data leaves a valid table: only the entries 3 to 15 are in use, every name
-- fits its array, and every position fits 32 bits. The call returns in the model, and so within the
-- bounds of its loops.
pub syscall_handler-IsValid :
    (l : Limits) (s : System) (regs : ℕ → ℕ) (o : Outcome)
    → IsValid s.fds
    → syscall_handler l s regs ≡ some o
    → IsValid (state_of o).fds
unfolding syscall_handler
syscall_handler-IsValid l s regs o v e = elim (Bool-cases (regs 0 == 1)) [
  | inr goes ↦
      elim (Bool-cases
        (any_touches (s.owned s.pages) (stores (regs 0) (regs 4) (regs 3) (regs 2) (regs 1)))) [
          | inl caught ↦ absurd (ground (arith, rw (goes, caught) at e))
          | inr apart ↦
              set_result-IsValid regs (call l s (regs 0) (regs 4) (regs 3) (regs 2) (regs 1)) o
                (call-Leaves l s v (regs 0) (regs 4) (regs 3) (regs 2) (regs 1))
                (rw (goes, apart) at e)
        ]
  | inl ends ↦
      let ended : some (halted (exit_call s (regs 4))) ≡ some o = rw ends at e in
      rw (← some_back ended) (exit_call-IsValid s (regs 4) v)
]
