-- ===== src/Syscall/Handler/Seek.antt =====
-- `sys_lseek` of kernel/syscall.c, and what a read does behind it.
use ovsb_mk.Base.{
  ℕ, ◌+◌, ◌%◌, ◌^◌, ◌≤◌, ◌<◌, ◌≡◌, ◌∙◌, refl, ap, true, false, none, some, arith, ◌==◌, leb, List,
  length, drop, ℤ,
}
use ovsb_mk.Fat.Chain.{got}
use ovsb_mk.Fat.Files.{fat32_read_file}
use ovsb_mk.Syscall.Types.{System, Limits, int_of}
use ovsb_mk.Syscall.Files.{file_at, open_file, read_part, read_file, sys_read}
use ovsb_mk.Syscall.Files.Reads.{
  Reads, file_keys, file_used, file_open, read_all, read_all-contents,
}
use ovsb_mk.Syscall.Stat.{move_to, seek, sys_lseek}

-- The descriptor stays open, and the file is the same, wherever the position goes.
module _ (l : Limits) (s : System) (a1 i off : ℕ) (contents : List ℕ)
    (r : Reads l s a1 i contents) where
  moved_open : open_file (move_to s i off) a1 ≡ some i
  moved_open =
      let (fd, lo, hi, used) = file_used s.fds (int_of a1) i (unfold open_file in r.opened) in
      unfold open_file in
      (ap (file_at (move_to s i off).fds) fd
        ∙ file_open (move_to s i off).fds i lo hi (ground (arith, used)))

  moved_file :
      fat32_read_file s.volume l.hops l.rounds ((move_to s i off).fds i).name 4096
      ≡ some (got contents)
  moved_file =
      let name : ((move_to s i off).fds i).name ≡ (s.fds i).name = ground arith in
      ap (λ c. fat32_read_file s.volume l.hops l.rounds c 4096) name ∙ r.file

  moved_pos : ((move_to s i off).fds i).pos ≡ off % 2 ^ 32
  moved_pos = ground arith

  seek_start : sys_lseek l s a1 off 0 ≡ some (off % 2 ^ 32, move_to s i off)
  unfolding sys_lseek seek
  seek_start = rw (r.opened, sys_lseek) (ap (λ p. some (p, move_to s i off)) moved_pos)

  -- After a move to a place in the file, a program that reads until a read gives 0 gets exactly the
  -- bytes of the file from there to the end of its first 4096.
  pub sys_lseek-read_all :
      (buf n k : ℕ)
      → off ≤ length contents
      → 0 < n
      → n < 2 ^ 31
      → length contents < off + k
      → (s' s'' : System) × (sys_lseek l s a1 off 0 ≡ some (off, s'))
        × (read_all l s' a1 buf n k ≡ some (drop off contents, s''))
  sys_lseek-read_all buf n k inside some_room lt more =
      let same : off % 2 ^ 32 ≡ off = omega (arith, r.short) in
      let at : ((move_to s i off).fds i).pos ≡ off = moved_pos ∙ same in
      let r' : Reads l (move_to s i off) a1 i contents = record {
        opened = moved_open;
        file = moved_file;
        short = r.short;
        inside = omega (arith, at);
      } in
      let (s'', e, end) =
        read_all-contents l (move_to s i off) a1 i buf n k contents r' some_room lt
          (omega (arith, at)) in
      (
        move_to s i off,
        s'',
        seek_start ∙ ap (λ p. some (p, move_to s i off)) same,
        e ∙ ap (λ p. some (drop p contents, s'')) at,
      )

  -- `sys_lseek` takes a negative offset from the start of a file, and a `read` of at least one byte
  -- behind it then reads in front of the array `tmp`.
  pub sys_lseek-read_before :
      (buf n : ℕ)
      → 2 ^ 31 ≤ off % 2 ^ 32
      → 0 < n
      → n < 2 ^ 31
      → (s' : System) × (sys_lseek l s a1 off 0 ≡ some (off % 2 ^ 32, s'))
        × (sys_read l s' a1 buf n ≡ none)
  unfolding sys_read read_file read_part
  sys_lseek-read_before buf n negative some_room lt =
      let s' = move_to s i off in
      let count : int_of n ≡ ℤ.pos n = ground arith in
      let keys = file_keys s'.fds (int_of a1) (int_of n) i buf (unfold open_file in moved_open) in
      let chosen : sys_read l s' a1 buf n ≡ read_file l s' i buf (int_of n) =
        rw (keys, moved_open, sys_read) in
      let far : leb (2 ^ 31) (s'.fds i).pos ≡ true = ground (arith, moved_pos, negative) in
      let wanted : (n == 0) ≡ false = ground (arith, some_room) in
      (
        s',
        seek_start,
        chosen
            ∙ ap (read_file l s' i buf) count
            ∙ rw (moved_file, read_file) (rw (far, wanted) refl),
      )
