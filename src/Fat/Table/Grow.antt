-- ===== src/Fat/Table/Grow.antt =====
-- A chain of fs/fat32.c that grows by a cluster.
use ovsb_mk.Base.{
  ℕ, ◌^◌, ◌≤◌, ◌<◌, ◌≡◌, ◌≢◌, inl, inr, refl, true, false, arith, ◌==◌, if◌then◌else◌, Bool-cases,
}
use ovsb_mk.Fat.Types.{Volume}
use ovsb_mk.Fat.Table.{fat_read_entry, fat_write_entry, fat_find_free, cluster_end, link_free}
use ovsb_mk.Fat.Table.Entries.{IsTable, fat_read_entry-fat_write_entry, fat_write_entry-IsTable}
use ovsb_mk.Fat.Table.Free.{fat_find_free-FirstFree}

-- The cluster `free`, the first free one, has been linked behind `prev`.
pub record Linked (v v' : Volume) (prev free : ℕ) : Type 0 where
  pub was_free : fat_read_entry v free ≡ 0
  pub first : (d : ℕ) → 2 ≤ d → d < free → fat_read_entry v d ≢ 0
  pub above : 2 ≤ free
  pub below : free < cluster_end v
  pub entries :
      (d : ℕ)
      → d < 2 ^ 28
      → fat_read_entry v' d
        ≡ (if free == d then 0x0FFFFFFF else if prev == d then free else fat_read_entry v d)

linked_entries :
    (v : Volume) (prev free d : ℕ)
    → IsTable v
    → prev < 2 ^ 28
    → free < 2 ^ 28
    → d < 2 ^ 28
    → (fat_write_entry v prev free).0 ≡ true
    → (fat_write_entry (fat_write_entry v prev free).1 free 0x0FFFFFFF).0 ≡ true
    → fat_read_entry (fat_write_entry (fat_write_entry v prev free).1 free 0x0FFFFFFF).1 d
      ≡ (if free == d then 0x0FFFFFFF else if prev == d then free else fat_read_entry v d)
linked_entries v prev free d t lp lf ld e1 e2 = ground (
  arith,
  fat_read_entry-fat_write_entry v prev free d t lp ld e1,
  fat_read_entry-fat_write_entry (fat_write_entry v prev free).1 free 0x0FFFFFFF d
      (fat_write_entry-IsTable v prev free t) lf ld e2,
)

-- On a volume with a valid table and clusters of 28 bits, where `link_free` gives a cluster, it was
-- the first free one; the entry of `prev` now names it, it ends the chain, and no other entry has
-- changed.
pub link_free-Linked :
    (v : Volume) (prev : ℕ)
    → IsTable v
    → prev < 2 ^ 28
    → cluster_end v ≤ 2 ^ 28
    → (link_free v prev).0 ≢ 0
    → Linked v (link_free v prev).1 prev (link_free v prev).0
unfolding link_free
link_free-Linked v prev t lp le ne =
    let free = fat_find_free v in
    let linked = fat_write_entry v prev free in
    let ended = fat_write_entry linked.1 free 0x0FFFFFFF in
    elim (fat_find_free-FirstFree v) [
      | inr (e, all) ↦ absurd (ground (arith, ne, e))
      | inl f ↦
          let test : (free == 0) ≡ false = ground (arith, f.above) in
          elim (Bool-cases linked.0) [
            | inr bad ↦ absurd (ne (rw (test, bad, link_free) refl))
            | inl good ↦ elim (Bool-cases ended.0) [
              | inr bad ↦ absurd (ne (rw (test, good, link_free, bad) refl))
              | inl done ↦
                  rw (test, good, link_free, done)
                    (record {
                      was_free = f.is_free;
                      first = λ d lo lt. f.first d lo lt;
                      above = f.above;
                      below = f.below;
                      entries = λ d ld.
                          linked_entries v prev free d t lp (omega (arith, f.below)) ld good done;
                    })
            ]
          ]
    ]
