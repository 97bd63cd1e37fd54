-- ===== src/Fat/Dir/Find.antt =====
-- What `find_entry` of fs/fat32.c sees in a sector before and after an entry has been created.
use ovsb_mk.Base.{
  ℕ, ◌+◌, ◌*◌, ◌^◌, ◌<◌, ◌≡◌, ◌≢◌, ◌∙◌, ap, List, Bool, true, false, ◌||◌, some, arith, ltb, length,
  get_or,
}
use ovsb_mk.Fat.Types.{Bytes}
use ovsb_mk.Fat.Walk.{go, back}
use ovsb_mk.Fat.Entry.{
  DirEntry, entry_at, entry_name, same_name, is_end, is_deleted, fill_entry, first_cluster_of,
}
use ovsb_mk.Fat.Entry.Fields.{bytes_from-cong, fill_entry-entry_at, same_name_self}
use ovsb_mk.Fat.Dir.{find_slot}

-- An entry that `create_entry_at` may use.
abbrev pub is_free : Bytes → ℕ → Bool
is_free b i = is_end b i || is_deleted b i

-- A name that is no mark of a free entry.
pub record IsName (name : List ℕ) : Type 0 where
  pub full : length name ≡ 11
  pub no_end : get_or name 0 0 ≢ 0
  pub no_mark : get_or name 0 0 ≢ 0xE5

-- The entry that `create_entry_at` makes.
pub record IsNew (e : DirEntry) (name : List ℕ) (attr : ℕ) : Type 0 where
  pub named : e.name ≡ name
  pub with_attr : e.attr ≡ attr
  pub no_cluster : first_cluster_of e ≡ 0
  pub no_size : e.size ≡ 0

-- A used entry that is passed over.
pub find_slot-passes :
    (name : List ℕ) (sector : ℕ) (b : Bytes) (i : ℕ) (st : Unit {0})
    → sector < 2 ^ 31
    → is_free b i ≡ false
    → ((e : DirEntry × ℕ) → find_slot name sector b i st ≢ back (some e))
    → find_slot name sector b i st ≡ go st
unfolding find_slot
find_slot-passes name sector b i st small used no_match =
    let fits : ltb sector (2 ^ 31) ≡ true = ground arith in
    ground (arith, used, fits, no_match (entry_at b i, sector))

-- The same entry in another sector.
pub find_slot-same :
    (name : List ℕ) (sector : ℕ) (b b' : Bytes) (i : ℕ) (st : Unit {0})
    → ((j : ℕ) → j < 32 * i + 32 → b j ≡ b' j)
    → find_slot name sector b i st ≡ go st
    → find_slot name sector b' i st ≡ go st
unfolding find_slot
find_slot-same name sector b b' i st same e =
    let first = same (32 * i + 0) (omega arith) in
    let attr = same (32 * i + 11) (omega arith) in
    let names = bytes_from-cong 11 b b' (32 * i) (λ j lo hi. same j (omega arith)) in
    let match : same_name (entry_name b i) name ≡ same_name (entry_name b' i) name =
      ap (λ l. same_name l name) names in
    ground (arith, first, attr, match, e)

-- The new entry is found.
pub find_slot-new :
    (name : List ℕ) (attr sector : ℕ) (b : Bytes) (i : ℕ) (st : Unit {0})
    → IsName name
    → attr ≢ 0x0F
    → sector < 2 ^ 31
    → find_slot name sector (fill_entry b i name attr) i st
      ≡ back (some (entry_at (fill_entry b i name attr) i, sector))
unfolding find_slot
find_slot-new name attr sector b i st n visible small =
    let (named, with_attr, no_cluster, no_size) = fill_entry-entry_at b i name attr n.full in
    let head : fill_entry b i name attr (32 * i + 0) ≡ get_or name 0 0 =
      ap (fill_entry b i name attr) (omega arith) ∙ ap (λ l. get_or l 0 0) named in
    let match : same_name (entry_name (fill_entry b i name attr) i) name ≡ true =
      ap (λ l. same_name l name) named ∙ same_name_self name in
    let fits : ltb sector (2 ^ 31) ≡ true = ground arith in
    ground (arith, head, with_attr, match, fits)
