-- ===== src/Syscall/Tests.antt =====
-- The calls of kernel/syscall.c on a small system: the root directory has the file A.TXT of five
-- bytes, which is open as the descriptor 3.
use ovsb_mk.Base.{
  ℕ, ◌-◌, ◌%◌, ◌≤◌, ◌<◌, ◌≡◌, ◌⊎◌, refl, List, [], ◌∷◌, true, false, not, ◌&&◌, some, arith, ◌==◌,
  ltb, if◌then◌else◌, drop, get_or, replicate,
}
use ovsb_mk.Memory.Types.{update}
use ovsb_mk.Memory.Buddy.{memory_init}
use ovsb_mk.Fat.Types.{Volume, Bytes, ata_read_sector, cluster_to_sector}
use ovsb_mk.Fat.Name.{name_to_83, is_dots, base_of, extension_of, put_chars, put_upper}
use ovsb_mk.Fat.Table.{fat_read_entry}
use ovsb_mk.Fat.Chain.{got, read_chain, read_cluster, read_sectors}
use ovsb_mk.Fat.Walk.{each_entry, each_sector, each_cluster}
use ovsb_mk.Fat.Entry.{same_name, entry_at, first_cluster_of}
use ovsb_mk.Fat.Dir.{find_slot, find_entry}
use ovsb_mk.Fat.Files.{read_found, fat32_read_file}
use ovsb_mk.Syscall.Types.{Fd, System, Limits, failure}
use ovsb_mk.Syscall.Files.{
  first_unused, file_at, open_file, str_equal, matches, open_path, alloc_fd, sys_open,
}
use ovsb_mk.Syscall.Files.Table.{is_device, Opened, sys_open-Opened}
use ovsb_mk.Syscall.Files.Reads.{Reads, read_all}
use ovsb_mk.Syscall.Handler.{
  back, other_call, stores, any_touches, call, set_result, syscall_handler, in_rax, lib_syscall,
}
use ovsb_mk.Syscall.Stat.{sys_lseek}
use ovsb_mk.Syscall.Handler.Keeps.{IsValid, syscall_handler-IsValid}
use ovsb_mk.Syscall.Handler.Number.{lib_syscall-number}
use ovsb_mk.Syscall.Handler.Seek.{sys_lseek-read_all}

abbrev hello : List ℕ
hello = b'h' ∷ b'e' ∷ b'l' ∷ b'l' ∷ b'o' ∷ []

abbrev a_txt : List ℕ
a_txt = b'A' ∷ b'.' ∷ b'T' ∷ b'X' ∷ b'T' ∷ []

-- The entry of the file: its name, the attribute 0x20, the cluster 3 and the size 5.
abbrev root_sector : Bytes
root_sector j =
    if ltb j 11
    then get_or (b'A' ∷ replicate 7 b' ') j (get_or (b'T' ∷ b'X' ∷ b'T' ∷ []) (j - 8) 0)
    else if j == 11
    then 0x20
    else if j == 26
    then 3
    else if j == 28
    then 5
    else 0

-- The clusters 2 and 3 end their chains.
abbrev table_sector : Bytes
table_sector j = if ltb j 8 then 0 else if ltb j 16 then (if j % 4 == 3 then 0x0F else 0xFF) else 0

abbrev disk : Volume
disk = record {
  sectors =
      λ s. if s == 1 then table_sector else if s == 3 then root_sector else (λ j. get_or hello j 0);
  readable = λ s. true;
  writable = λ s. true;
  total_sectors = 9;
  root_cluster = 2;
  first_data_sector = 3;
  sectors_per_cluster = 1;
  current_dir_cluster = 2;
  fat_start_sector = 1;
}

abbrev limits : Limits
limits = record { hops = 2; rounds = 2; chars = 10; delays = [] }

abbrev entry : ℕ → Fd
entry i = record { used = i == 3; name = if i == 3 then a_txt else []; pos = 0 }

abbrev system : System
system = record {
  fds = entry;
  bytes = λ a. get_or a_txt (a - 100) 0;
  owned = λ m a. not (ltb a 0x100000) && ltb a 0x200000;
  volume = disk;
  screen = record {
    scrollback = λ i. 0;
    cursor_row = 0;
    cursor_col = 0;
    scroll_start = 0;
    fg_color = 0;
    bg_color = 0;
    cursor_visible = 0;
    scr_w = 640;
    scr_h = 480;
  };
  keyboard = record {
    buffer = replicate 256 0;
    head = 0;
    tail = 0;
    shift_pressed = 0;
    ctrl_pressed = 0;
    ext_flag = 0;
    last_make_sc = 0;
    last_repeat_char = 0;
    press_tick = 0;
    last_repeat_tick = 0;
    sigint_pending = 0;
  };
  procs = record { table = []; current_pid = 7; pcb_count = 0; next_pid = 8 };
  pages = memory_init;
  ticks = 0;
  framebuffer = record { active = false; addr = 0; width = 0; height = 0; pitch = 0; bpp = 0 };
  output = [];
  effects = [];
}

system-file : fat32_read_file disk 2 2 a_txt 4096 ≡ some (got hello)
unfolding fat32_read_file read_found find_entry find_slot name_to_83 is_dots base_of extension_of
    put_chars put_upper each_entry each_sector each_cluster same_name entry_at first_cluster_of
    read_chain read_cluster read_sectors fat_read_entry ata_read_sector cluster_to_sector
system-file = refl

system-Reads : Reads limits system 3 3 hello
system-Reads = record {
  opened = unfold open_file file_at in refl;
  file = system-file;
  short = omega arith;
  inside = omega arith;
}

system-IsValid : IsValid system.fds
system-IsValid = record {
  range = λ i e. ground (arith, e);
  short = λ i. ground arith;
  small = λ i. omega arith;
}

sys_lseek-read_all_example :
    (s' s'' : System) × (sys_lseek limits system 3 2 0 ≡ some (2, s'))
    × (read_all limits s' 3 500 2 6 ≡ some (drop 2 hello, s''))
sys_lseek-read_all_example =
    sys_lseek-read_all limits system 3 3 2 hello system-Reads 500 2 6 (omega arith) (omega arith)
      (omega arith) (omega arith)

-- The offset -1.

-- Another descriptor for the same file.
open-again : (sys_open system 100).0 ≡ 4
unfolding sys_open str_equal matches open_path alloc_fd first_unused
open-again = refl

sys_open-Opened_example :
    ((is_device system 100 ≡ true)
      × ((sys_open system 100).0 < 3)
      × ((sys_open system 100).1 ≡ system))
    ⊎ ((is_device system 100 ≡ false)
        × (((i : ℕ) × ((sys_open system 100).0 ≡ i) × Opened system (sys_open system 100).1 100 i)
            ⊎ ((sys_open system 100 ≡ (failure, system))
                × ((j : ℕ) → 3 ≤ j → j < 16 → (system.fds j).used ≡ true))))
sys_open-Opened_example = sys_open-Opened system 100

-- `getpid` of the process 7.
getpid-answer : lib_syscall limits system (λ r. 0) 20 0 0 0 0 ≡ some (20, system)
unfolding lib_syscall syscall_handler stores any_touches call other_call set_result in_rax
getpid-answer = refl

lib_syscall-number_example : ◌≡◌ {A = ℕ} 20 20
lib_syscall-number_example =
    lib_syscall-number limits system system (λ r. 0) 20 0 0 0 0 20 getpid-answer

-- `open` of the path at the address 100.
abbrev open_regs : ℕ → ℕ
open_regs r = if r == 0 then 5 else if r == 4 then 100 else 0

open-back :
    syscall_handler limits system open_regs
    ≡ some (back (update open_regs 14 (sys_open system 100).0) (sys_open system 100).1)
unfolding syscall_handler stores any_touches call set_result
open-back = refl

syscall_handler-IsValid_example : IsValid (sys_open system 100).1.fds
syscall_handler-IsValid_example =
    syscall_handler-IsValid limits system open_regs
      (back (update open_regs 14 (sys_open system 100).0) (sys_open system 100).1) system-IsValid
      open-back
