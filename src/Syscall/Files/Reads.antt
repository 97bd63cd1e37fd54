-- ===== src/Syscall/Files/Reads.antt =====
-- `sys_read` and `sys_lseek` of kernel/syscall.c on a file: what a program reads piece by piece.
use ovsb_mk.Base.{
  ℕ, zero, suc, ◌+◌, ◌-◌, ◌%◌, ◌^◌, ◌≤◌, ◌<◌, ◌≡◌, ◌∙◌, inl, inr, refl, sym, ap, true, false,
  Option, none, some, arith, ◌==◌, ltb, leb, Bool-cases, List, [], ◌∷◌, ◌++◌, length, take, drop,
  length-take, length-drop, take-append-drop, drop_all, ℤ, negsuc,
}
use ovsb_mk.Fat.Types.{bytes_from, put_bytes}
use ovsb_mk.Fat.Chain.{got}
use ovsb_mk.Fat.Entry.Fields.{bytes_from-put_bytes}
use ovsb_mk.Fat.Files.{fat32_read_file}
use ovsb_mk.Syscall.Types.{Fd, System, Limits, int_of, set_fd}
use ovsb_mk.Syscall.Files.{
  open_file, file_at, keys_wanted, read_part, read_file, sys_read, least_of,
}

-- The descriptor in the register `a1` is the open file `i`, which reads as `contents`, and its
-- position is within.
pub record Reads (l : Limits) (s : System) (a1 i : ℕ) (contents : List ℕ) : Type 0 where
  pub opened : open_file s a1 ≡ some i
  pub file : fat32_read_file s.volume l.hops l.rounds (s.fds i).name 4096 ≡ some (got contents)
  pub short : length contents ≤ 4096
  pub inside : (s.fds i).pos ≤ length contents

-- What a `read` of at most `n` bytes leaves.
abbrev after_read : System → (i buf n : ℕ) → (contents : List ℕ) → System
after_read s i buf n contents =
    let f = s.fds i in
    let m = least_of n (length contents - f.pos) in
    record (set_fd s i (record f { pos = (f.pos + m) % 2 ^ 32 })) {
      bytes = put_bytes s.bytes buf (take m (drop f.pos contents));
    }

-- A file is not the keyboard.
pub file_keys :
    (fds : ℕ → Fd) (fd c : ℤ) (i buf : ℕ) → file_at fds fd ≡ some i → keys_wanted fd buf c ≡ none
unfolding file_at
file_keys fds (negsuc n) c i buf e = refl
file_keys fds (ℤ.pos zero) c i buf e = absurd (cc)
file_keys fds (ℤ.pos (suc k)) c i buf e = refl

pub file_used :
    (fds : ℕ → Fd) (fd : ℤ) (i : ℕ)
    → file_at fds fd ≡ some i
    → (fd ≡ ℤ.pos i) × (3 ≤ i) × (i < 16) × ((fds i).used ≡ true)
unfolding file_at
file_used fds (negsuc n) i e = absurd (cc)
file_used fds (ℤ.pos k) i e = ground (arith, e)

pub file_open :
    (fds : ℕ → Fd) (i : ℕ) → 3 ≤ i → i < 16 → (fds i).used ≡ true → file_at fds (ℤ.pos i) ≡ some i
unfolding file_at
file_open fds i lo hi used = ground (arith, used)

read_file-next :
    (l : Limits) (s : System) (i buf n : ℕ) (contents : List ℕ)
    → fat32_read_file s.volume l.hops l.rounds (s.fds i).name 4096 ≡ some (got contents)
    → length contents ≤ 4096
    → (s.fds i).pos ≤ length contents
    → read_file l s i buf (ℤ.pos n)
      ≡ some (least_of n (length contents - (s.fds i).pos), after_read s i buf n contents)
unfolding read_file read_part
read_file-next l s i buf n contents file short inside =
    let low : leb (2 ^ 31) (s.fds i).pos ≡ false = ground (arith, short, inside) in
    let within : ltb (length contents) (s.fds i).pos ≡ false = ground (arith, inside) in
    rw (file, read_file) (rw (low, within) refl)

-- A read of the file hands out the next bytes, as many as there are up to the count.
sys_read-next :
    (l : Limits) (s : System) (a1 i buf n : ℕ) (contents : List ℕ)
    → Reads l s a1 i contents
    → n < 2 ^ 31
    → sys_read l s a1 buf n
      ≡ some (least_of n (length contents - (s.fds i).pos), after_read s i buf n contents)
unfolding sys_read
sys_read-next l s a1 i buf n contents r lt =
    let count : int_of n ≡ ℤ.pos n = ground arith in
    let keys = file_keys s.fds (int_of a1) (int_of n) i buf (unfold open_file in r.opened) in
    let chosen : sys_read l s a1 buf n ≡ read_file l s i buf (int_of n) =
      rw (keys, r.opened, sys_read) in
    chosen
    ∙ ap (read_file l s i buf) count
    ∙ read_file-next l s i buf n contents r.file r.short r.inside

-- What stays of the descriptor, and of the volume, for the next read.
after_read-Reads :
    (l : Limits) (s : System) (a1 i buf n : ℕ) (contents : List ℕ)
    → Reads l s a1 i contents
    → Reads l (after_read s i buf n contents) a1 i contents
      × (((after_read s i buf n contents).fds i).pos
          ≡ (s.fds i).pos + least_of n (length contents - (s.fds i).pos))
after_read-Reads l s a1 i buf n contents r =
    let s' = after_read s i buf n contents in
    let (fd, lo, hi, used) = file_used s.fds (int_of a1) i (unfold open_file in r.opened) in
    let at : (s'.fds i).pos ≡ (s.fds i).pos + least_of n (length contents - (s.fds i).pos) =
      ground (arith, r.inside, r.short) in
    let name : (s'.fds i).name ≡ (s.fds i).name = ground arith in
    (
      record {
        opened =
            unfold open_file in
            (ap (file_at s'.fds) fd ∙ file_open s'.fds i lo hi (ground (arith, used)));
        file = ap (λ c. fat32_read_file s.volume l.hops l.rounds c 4096) name ∙ r.file;
        short = r.short;
        inside = ground (arith, at, r.inside);
      },
      at,
    )

-- A program that reads into one buffer until a read gives 0, `k` reads at most: all the bytes.
unfoldable pub read_all : Limits → System → (a1 buf n k : ℕ) → Option (List ℕ × System)
read_all l s a1 buf n zero = none
read_all l s a1 buf n (suc k) = elim (sys_read l s a1 buf n) [
  | none ↦ none
  | some (m, s') ↦ elim (m == 0) [
    | true ↦ some ([], s')
    | false ↦ elim (read_all l s' a1 buf n k) [
      | none ↦ none
      | some (rest, s'') ↦ some (bytes_from s'.bytes buf m ++ rest, s'')
    ]
  ]
]

drop_add : (p m : ℕ) (xs : List ℕ) → drop m (drop p xs) ≡ drop (p + m) xs
drop_add zero m xs = ap (λ k. drop k xs) (omega arith)
drop_add (suc p) m [] = let shift : suc p + m ≡ suc (p + m) = omega arith in rw shift (drop_nil m)
  where
    drop_nil : (m : ℕ) → drop {A = ℕ} m [] ≡ []
    drop_nil m = drop_all m [] (omega arith)
drop_add (suc p) m (x ∷ xs) =
    let shift : suc p + m ≡ suc (p + m) = omega arith in rw shift (drop_add p m xs)

-- The bytes in the buffer behind a read.
after_read-bytes :
    (s : System) (i buf n : ℕ) (contents : List ℕ)
    → let m = least_of n (length contents - (s.fds i).pos) in
      bytes_from (after_read s i buf n contents).bytes buf m ≡ take m (drop (s.fds i).pos contents)
after_read-bytes s i buf n contents =
    let m = least_of n (length contents - (s.fds i).pos) in
    let xs = take m (drop (s.fds i).pos contents) in
    let size : length xs ≡ m =
      length-take m (drop (s.fds i).pos contents)
      ∙ ground (arith, length-drop (s.fds i).pos contents) in
    ap (bytes_from (put_bytes s.bytes buf xs) buf) (sym size) ∙ bytes_from-put_bytes xs s.bytes buf

-- A program that reads a file with a buffer of at least one byte, until a read gives 0, gets
-- exactly the bytes from its position to the end of the first 4096; a read for each byte and one
-- more are enough, and then the position is the end.
pub read_all-contents :
    (l : Limits) (s : System) (a1 i buf n k : ℕ) (contents : List ℕ)
    → Reads l s a1 i contents
    → 0 < n
    → n < 2 ^ 31
    → length contents < (s.fds i).pos + k
    → (s' : System) × (read_all l s a1 buf n k ≡ some (drop (s.fds i).pos contents, s'))
      × ((s'.fds i).pos ≡ length contents)
unfolding read_all
read_all-contents l s a1 i buf n zero contents r some_room lt more =
    absurd (omega (arith, r.inside))
read_all-contents l s a1 i buf n (suc k) contents r some_room lt more =
    let p = (s.fds i).pos in
    let m = least_of n (length contents - p) in
    let s1 = after_read s i buf n contents in
    let next = sys_read-next l s a1 i buf n contents r lt in
    let (r1, moved) = after_read-Reads l s a1 i buf n contents r in
    elim (Bool-cases (m == 0)) [
      | inl end ↦
          let at_end : p ≡ length contents = ground (arith, end, r.inside, some_room) in
          (
            s1,
            rw (next, read_all, end)
                (ap (λ xs. some (xs, s1)) (sym (drop_all p contents (omega arith)))),
            ground (arith, moved, at_end, end),
          )
      | inr going ↦
          let left : length contents < (s1.fds i).pos + k = ground (arith, moved, going, more) in
          let joined =
            ap (λ ys. ys ++ drop (s1.fds i).pos contents) (after_read-bytes s i buf n contents)
            ∙ ap (λ q. take m (drop p contents) ++ drop q contents) moved
            ∙ ap (λ ys. take m (drop p contents) ++ ys) (sym (drop_add p m contents))
            ∙ take-append-drop m (drop p contents) in
          let (s', e, at) = read_all-contents l s1 a1 i buf n k contents r1 some_room lt left in
          (s', rw (next, read_all, going, e) (ap (λ xs. some (xs, s')) joined), at)
    ]
