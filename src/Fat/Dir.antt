-- ===== src/Fat/Dir.antt =====
-- The directory functions of fs/fat32.c: `find_entry`, `list_dir_at`, `fat32_match_prefix`,
-- `create_entry_at` and `delete_entry_at`. Each takes the number of clusters that it follows at
-- most, and gives `none` if the chain is longer.
pub mod Find
pub mod Create
pub mod Sectors
pub mod Created
pub mod Clusters
use ovsb_mk.Base.{
  ℕ, zero, suc, ◌+◌, ◌-◌, ◌*◌, ◌/◌, ◌%◌, ◌^◌, List, [], ◌∷◌, ◌++◌, Bool, true, false, ◌&&◌, ◌||◌,
  not, Option, none, some, ◌==◌, ltb, leb, if◌then◌else◌, length, take, ℤ, pos, negsuc,
}
use ovsb_mk.Fat.Types.{
  Volume, Bytes, ata_write_sector, read16, bytes_from, write_byte, err_io, err_nospace,
}
use ovsb_mk.Fat.Name.{name_to_83}
use ovsb_mk.Fat.Walk.{Flow, go, back, each_entry, each_cluster, finish}
use ovsb_mk.Fat.Entry.{
  DirEntry, entry_at, entry_name, entry_attr, name_byte, same_name, is_end, is_deleted, is_long,
  fill_entry,
}

-- Of `find_entry`: the entry and its sector, or `none` for -1. A sector number that does not fit an
-- `int` is negative to the callers, as -1 is.
abbrev pub Found : Type 0
Found = Option (DirEntry × ℕ)

unfoldable pub find_slot : List ℕ → (sector : ℕ) → Bytes → ℕ → Unit {0} → Flow (Unit {0}) Found
find_slot name83 sector b i st =
    if is_end b i
    then back none
    else if is_deleted b i || is_long b i
    then go st
    else if same_name (entry_name b i) name83
    then back (if ltb sector (2 ^ 31) then some (entry_at b i, sector) else none)
    else go st

unfoldable pub find_entry : Volume → (hops dir_cluster : ℕ) → (name : List ℕ) → Option Found
find_entry v hops dir_cluster name =
    finish (λ st. none)
      (each_cluster v (λ sector b. each_entry (find_slot (name_to_83 name) sector b) 0 16)
        (λ st. back none) hops dir_cluster tt)

-- The calls of kernel/console.c.
pub data Console : Type 0 where
  set_fg : ℕ → Console
  putchar : ℕ → Console

abbrev color_dir : ℕ
color_dir = 0xFF60FF60

abbrev color_file : ℕ
color_file = 0xFFC0C0C0

-- The characters of a name that are no spaces.
unfoldable pub print_name : List ℕ → List Console
print_name [] = []
print_name (c ∷ cs) = if c == b' ' then print_name cs else putchar c ∷ print_name cs

abbrev two_digits : ℕ → List Console
two_digits n = putchar (b'0' + n / 10) ∷ putchar (b'0' + n % 10) ∷ []

-- Month, day, hour and minute; nothing where the date is 0.
unfoldable pub print_date : (mt md : ℕ) → List Console
print_date mt md =
    if md == 0
    then []
    else putchar b' ' ∷ two_digits (md / 32 % 16)
      ++ (putchar b'-' ∷ two_digits (md % 32)
          ++ (putchar b' ' ∷ two_digits (mt / 2048 % 32)
              ++ (putchar b':' ∷ two_digits (mt / 32 % 64))))

-- `attr & 0x10`
abbrev pub is_directory : ℕ → Bool
is_directory attr = attr / 16 % 2 == 1

abbrev print_entry : Bytes → ℕ → List Console
print_entry b i =
    set_fg (if is_directory (entry_attr b i) then color_dir else color_file)
      ∷ print_name (entry_name b i)
    ++ ((if is_directory (entry_attr b i) then putchar b'/' ∷ [] else [])
        ++ (set_fg color_file ∷ print_date (read16 b (32 * i + 22)) (read16 b (32 * i + 24))
            ++ (putchar 10 ∷ [])))

-- The state is the count and what has been written.
unfoldable pub list_slot : Bytes → ℕ → ℕ × List Console → Flow (ℕ × List Console) (ℤ × List Console)
unfolding print_name print_date
list_slot b i (count, out) =
    if is_end b i
    then back (pos count, out)
    else if is_deleted b i || is_long b i
    then go (count, out)
    else go (count + 1, out ++ print_entry b i)

unfoldable pub list_dir_at : Volume → (hops dir_cluster : ℕ) → Option (ℤ × List Console)
list_dir_at v hops dir_cluster =
    finish (λ st. (pos st.0, st.1))
      (each_cluster v (λ sector b. each_entry (list_slot b) 0 16) (λ st. back (negsuc 0, st.1)) hops
        dir_cluster (0, []))

-- The bytes before the first space.
unfoldable pub until_space : List ℕ → List ℕ
until_space [] = []
until_space (c ∷ cs) = if c == b' ' then [] else c ∷ until_space cs

unfoldable pub has_char : List ℕ → Bool
has_char [] = false
has_char (c ∷ cs) = not (c == b' ') || has_char cs

-- The name as it is shown: with a dot before an extension.
unfoldable pub shown_name : Bytes → ℕ → List ℕ
unfolding until_space has_char
shown_name b i =
    let base = until_space (bytes_from b (32 * i) 8) in
    let ext = bytes_from b (32 * i + 8) 3 in
    if has_char ext && not (length base == 0) then base ++ (b'.' ∷ until_space ext) else base

-- `plen == 0 || strncmp(name, prefix, plen) == 0`
unfoldable pub has_prefix : (prefix name : List ℕ) → Bool
has_prefix [] name = true
has_prefix (p ∷ ps) [] = false
has_prefix (p ∷ ps) (c ∷ cs) = (p == c) && has_prefix ps cs

-- `fat32_dirent_t`
pub record Dirent : Type 0 where
  pub name : List ℕ
  pub attr : ℕ

unfoldable pub match_slot :
    (prefix : List ℕ)
    → (max_entries : ℕ) → Bytes
    → ℕ
    → List Dirent
    → Flow (List Dirent) (List Dirent)
match_slot prefix max_entries b i found =
    let name = shown_name b i in
    let more = found ++ (record { name = take 63 name; attr = entry_attr b i } ∷ []) in
    if leb max_entries (length found)
    then back found
    else if is_end b i
    then back found
    else if is_deleted b i || is_long b i
    then go found
    else if has_prefix prefix name
    then go more
    else go found

-- The entries that are found; their number is the result.
unfoldable pub fat32_match_prefix :
    Volume → (hops : ℕ) → (prefix : List ℕ) → (dir_cluster max_entries : ℕ) → Option (List Dirent)
fat32_match_prefix v hops prefix dir_cluster max_entries =
    finish (λ found. found)
      (each_cluster v
        (λ sector b found. elim (each_entry (match_slot prefix max_entries b) 0 16 found) [
          | back r ↦ back r
          | go found' ↦ if leb max_entries (length found') then back found' else go found'
        ])
        (λ found. back found) hops dir_cluster [])

-- A sector goes back to the disk: the result, or the error.
abbrev pub store : Volume → (sector : ℕ) → Bytes → (good bad : ℤ) → ℤ × Volume
store v sector b good bad =
    let (done, v') = ata_write_sector v sector b in (if done then good else bad, v')

unfoldable pub create_slot :
    Volume → List ℕ → (attr sector : ℕ) → Bytes → ℕ → Unit {0} → Flow (Unit {0}) (ℤ × Volume)
create_slot v name83 attr sector b i st =
    if is_end b i || is_deleted b i
    then back (store v sector (fill_entry b i name83 attr) (pos 0) err_io)
    else go st

unfoldable pub create_entry_at :
    Volume → (hops dir_cluster : ℕ) → (name : List ℕ) → (attr : ℕ) → Option (ℤ × Volume)
create_entry_at v hops dir_cluster name attr =
    finish (λ st. (err_nospace, v))
      (each_cluster v (λ sector b. each_entry (create_slot v (name_to_83 name) attr sector b) 0 16)
        (λ st. back (err_io, v)) hops dir_cluster tt)

unfoldable pub delete_slot :
    Volume → List ℕ → (sector : ℕ) → Bytes → ℕ → Unit {0} → Flow (Unit {0}) (ℤ × Volume)
delete_slot v name83 sector b i st =
    if is_end b i
    then back (negsuc 0, v)
    else if is_deleted b i || is_long b i
    then go st
    else if same_name (entry_name b i) name83
    then back (store v sector (write_byte b (32 * i) 0xE5) (pos 0) (negsuc 0))
    else go st

unfoldable pub delete_entry_at :
    Volume → (hops dir_cluster : ℕ) → (name : List ℕ) → Option (ℤ × Volume)
delete_entry_at v hops dir_cluster name =
    finish (λ st. (negsuc 0, v))
      (each_cluster v (λ sector b. each_entry (delete_slot v (name_to_83 name) sector b) 0 16)
        (λ st. back (negsuc 0, v)) hops dir_cluster tt)
