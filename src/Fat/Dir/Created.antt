-- ===== src/Fat/Dir/Created.antt =====
-- `create_entry_at` of fs/fat32.c fills an entry in one of the sectors of a cluster.
use ovsb_mk.Base.{
  ℕ, zero, suc, ◌+◌, ◌^◌, ◌≤◌, ◌<◌, ◌≡◌, ◌≢◌, ◌∙◌, ap, inl, inr, refl, List, true, some, arith,
  ◌==◌, ℤ, pos,
}
use ovsb_mk.Fat.Types.{Volume, ata_read_sector, lba28}
use ovsb_mk.Fat.Disk.{ata_read_sector-cases, ata_read_sector_good}
use ovsb_mk.Fat.Walk.{Flow, go, back, each_sector}
use ovsb_mk.Fat.Entry.{DirEntry, fill_entry}
use ovsb_mk.Fat.Dir.Find.{IsName}
use ovsb_mk.Fat.Dir.Create.{Filled, creating-used, finding-used, creating-Filled}
use ovsb_mk.Fat.Dir.Sectors.{
  Full, Made, found_entry, kept_sector, create_body, find_body, create_sectors, find_sectors,
}

module _ (name : List ℕ) (attr : ℕ) where
  -- The sectors after the entry has been created, from `from` on.
  pub record Created (v w : Volume) (from n : ℕ) : Type 0 where
    pub made : Made v w name attr
    pub above : from ≤ made.sector
    pub below : made.sector < from + n
    pub found :
        (st : Unit {0}) → find_sectors name attr w from n st ≡ back (some (found_entry made))

  -- The entry goes to the first sector.
  Created-here :
      (v : Volume) (sector n : ℕ) (w : Volume)
      → v.readable (lba28 sector) ≡ true
      → Filled v name attr sector (v.sectors (lba28 sector)) 0 16 w
      → Created v w sector (suc n)
  unfolding each_sector
  Created-here v sector n w good f =
      let here : (lba28 sector == lba28 sector) ≡ true = ground arith in
      let read : ata_read_sector w sector
          ≡ some (fill_entry (v.sectors (lba28 sector)) f.slot name attr) =
        ata_read_sector_good w sector (ap (λ x. x.readable (lba28 sector)) f.disk ∙ good)
        ∙ ap (λ x. some (x.sectors (lba28 sector))) f.disk
        ∙ rw here refl in
      record {
        made = record {
          sector = sector;
          slot = f.slot;
          within = f.below;
          was_free = f.was_free;
          disk = f.disk;
        };
        above = omega arith;
        below = omega arith;
        found = λ st. rw (read, f.found st, each_sector) refl;
      }

  -- The first sector is full.
  Created-later :
      (v : Volume) (sector n : ℕ) (w : Volume)
      → v.readable (lba28 sector) ≡ true
      → Full (v.sectors (lba28 sector))
      → ((st : Unit {0}) → find_body name attr sector (v.sectors (lba28 sector)) st ≡ go st)
      → Created v w (sector + 1) n
      → Created v w sector (suc n)
  unfolding each_sector
  Created-later v sector n w good full pass c =
      let read : ata_read_sector w sector ≡ some (v.sectors (lba28 sector)) =
        ata_read_sector_good w sector (ap (λ x. x.readable (lba28 sector)) c.made.disk ∙ good)
        ∙ ap some (kept_sector v w name attr (lba28 sector) c.made full) in
      record {
        made = c.made;
        above = omega (arith, c.above);
        below = omega (arith, c.below);
        found = λ st. rw (read, pass st, each_sector) (c.found st);
      }

  -- The entry is created in one of the sectors, where none with its name was found.
  pub create_sectors-Created :
      (v : Volume) (sector n : ℕ) (st : Unit {0}) (r : ℤ × Volume)
      → IsName name
      → attr ≢ 0x0F
      → sector + n ≤ 2 ^ 31
      → create_sectors name attr v sector n st ≡ back r
      → r.0 ≡ pos 0
      → ((e : DirEntry × ℕ) → find_sectors name attr v sector n st ≢ back (some e))
      → Created v r.1 sector n
  unfolding each_sector
  create_sectors-Created v sector zero st r name_ok visible small e z none_found =
      absurd (ground (arith, e))
  create_sectors-Created v sector (suc n) st r name_ok visible small e z none_found =
      elim (ata_read_sector-cases v sector) [
        | inr (bad, q) ↦ absurd (ground (arith, rw (q, each_sector) at e, z))
        | inl (good, q) ↦
            body (create_body name attr v sector (v.sectors (lba28 sector)) st) refl good q
              (λ st1 e1 nf1.
                create_sectors-Created v (sector + 1) n st1 r name_ok visible (omega arith) e1 z
                  nf1)
      ]
    where
      body :
          (f : Flow (Unit {0}) (ℤ × Volume))
          → create_body name attr v sector (v.sectors (lba28 sector)) st ≡ f
          → v.readable (lba28 sector) ≡ true
          → ata_read_sector v sector ≡ some (v.sectors (lba28 sector))
          → ((st1 : Unit {0})
              → create_sectors name attr v (sector + 1) n st1 ≡ back r
              → ((e : DirEntry × ℕ) → find_sectors name attr v (sector + 1) n st1 ≢ back (some e))
              → Created v r.1 (sector + 1) n)
          → Created v r.1 sector (suc n)
      body (back r') e' good q ih =
          let same : r' ≡ r = ground (arith, rw (q, e', each_sector) at e) in
          Created-here v sector n r.1 good (
            creating-Filled v name attr sector (v.sectors (lba28 sector)) 0 16 r name_ok visible
              (omega arith) (e' ∙ ap back same) z
              (λ x h. none_found x (rw (q, h, each_sector) refl)))
      body (go st1) e' good q ih =
          let full = creating-used v name attr sector (v.sectors (lba28 sector)) 0 16 st st1 e' in
          let pass : (st0 : Unit {0})
              → find_body name attr sector (v.sectors (lba28 sector)) st0 ≡ go st0 =
            λ st0.
              finding-used v name attr sector (v.sectors (lba28 sector)) 0 16 st0 (omega arith) full
                (λ x h. none_found x (rw (q, h, each_sector) refl)) in
          Created-later v sector n r.1 good full pass (
            ih st1 (rw (q, e', each_sector) at e)
              (λ x h. none_found x (rw (q, pass st, each_sector) h)))
