-- ===== src/Fat/Dir/Sectors.antt =====
-- `create_entry_at` and `find_entry` of fs/fat32.c over the sectors of a cluster.
use ovsb_mk.Base.{
  ℕ, zero, suc, ◌+◌, ◌^◌, ◌≤◌, ◌<◌, ◌≡◌, ◌≢◌, ◌∙◌, ap, inl, inr, refl, List, true, false, none,
  some, arith, ◌==◌, ℤ,
}
use ovsb_mk.Fat.Types.{Volume, Bytes, ata_read_sector, lba28, err_io}
use ovsb_mk.Fat.Disk.{written, ata_read_sector-cases, ata_read_sector_good}
use ovsb_mk.Fat.Walk.{Flow, go, back, each_entry, each_sector}
use ovsb_mk.Fat.Entry.{DirEntry, entry_at, fill_entry}
use ovsb_mk.Fat.Dir.{Found, find_slot, create_slot}
use ovsb_mk.Fat.Dir.Find.{is_free}
use ovsb_mk.Fat.Dir.Create.{creating-used, finding-used}

-- No entry of the sector is free.
abbrev pub Full : Bytes → Type 0
Full b = (j : ℕ) → 0 ≤ j → j < 0 + 16 → is_free b j ≡ false

-- `w` is the disk with a free entry of a sector filled.
pub record Made (v w : Volume) (name : List ℕ) (attr : ℕ) : Type 0 where
  pub sector : ℕ
  pub slot : ℕ
  pub within : slot < 16
  pub was_free : is_free (v.sectors (lba28 sector)) slot ≡ true
  pub disk : w ≡ written v sector (fill_entry (v.sectors (lba28 sector)) slot name attr)

-- What `find_entry` returns for it.
abbrev pub found_entry :
    {v w : Volume} {name : List ℕ} {attr : ℕ} → Made v w name attr → DirEntry × ℕ
found_entry {v} {w} {name} {attr} m =
    (entry_at (fill_entry (v.sectors (lba28 m.sector)) m.slot name attr) m.slot, m.sector)

-- A sector with no free entry is not the one that changes.
pub kept_sector :
    (v w : Volume) (name : List ℕ) (attr s : ℕ) (m : Made v w name attr)
    → Full (v.sectors s)
    → w.sectors s ≡ v.sectors s
kept_sector v w name attr s m full =
    let ne : s ≢ lba28 m.sector = λ e. ground (
      arith,
      full m.slot (omega arith) (omega (arith, m.within)),
      m.was_free,
      ap (λ x. is_free (v.sectors x) m.slot) e,
    ) in
    let miss : (s == lba28 m.sector) ≡ false = ground arith in
    ap (λ x. x.sectors s) m.disk ∙ rw miss refl

module _ (name : List ℕ) (attr : ℕ) where
  -- The bodies of the two functions.
  abbrev pub create_body : Volume → ℕ → Bytes → Unit {0} → Flow (Unit {0}) (ℤ × Volume)
  create_body v sector b = each_entry (create_slot v name attr sector b) 0 16

  abbrev pub find_body : ℕ → Bytes → Unit {0} → Flow (Unit {0}) Found
  find_body sector b = each_entry (find_slot name sector b) 0 16

  abbrev pub create_sectors : Volume → (sector n : ℕ) → Unit {0} → Flow (Unit {0}) (ℤ × Volume)
  create_sectors v = each_sector v (create_body v) (λ st. back (err_io, v))

  abbrev pub find_sectors : Volume → (sector n : ℕ) → Unit {0} → Flow (Unit {0}) Found
  find_sectors v = each_sector v find_body (λ st. back none)

  -- Every sector can be read and is full.
  abbrev pub AllFull : Volume → (sector n : ℕ) → Type 0
  AllFull v sector n =
      (m : ℕ)
      → m < n
      → (v.readable (lba28 (sector + m)) ≡ true) × Full (v.sectors (lba28 (sector + m)))

  AllFull-suc :
      (v : Volume) (sector n : ℕ)
      → v.readable (lba28 sector) ≡ true
      → Full (v.sectors (lba28 sector))
      → AllFull v (sector + 1) n
      → AllFull v sector (suc n)
  AllFull-suc v sector n good full rest zero lt =
      let same : sector + 0 ≡ sector = omega arith in rw same (good, full)
  AllFull-suc v sector n good full rest (suc m) lt =
      let same : sector + suc m ≡ sector + 1 + m = omega arith in rw same (rest m (omega arith))

  -- The sectors are full, where the loop goes through.
  pub create_sectors-AllFull :
      (v : Volume) (sector n : ℕ) (st st' : Unit {0})
      → create_sectors v sector n st ≡ go st'
      → AllFull v sector n
  unfolding each_sector
  create_sectors-AllFull v sector zero st st' e = λ m lt. absurd (omega arith)
  create_sectors-AllFull v sector (suc n) st st' e = elim (ata_read_sector-cases v sector) [
    | inr (bad, q) ↦ absurd (ground (arith, rw (q, each_sector) at e))
    | inl (good, q) ↦
        body (create_body v sector (v.sectors (lba28 sector)) st) refl good q
          (λ st1. create_sectors-AllFull v (sector + 1) n st1 st') e
  ]
    where
      body :
          (f : Flow (Unit {0}) (ℤ × Volume))
          → create_body v sector (v.sectors (lba28 sector)) st ≡ f
          → v.readable (lba28 sector) ≡ true
          → ata_read_sector v sector ≡ some (v.sectors (lba28 sector))
          → ((st1 : Unit {0})
              → create_sectors v (sector + 1) n st1 ≡ go st'
              → AllFull v (sector + 1) n)
          → create_sectors v sector (suc n) st ≡ go st'
          → AllFull v sector (suc n)
      body (back r) e' good q ih h = absurd (ground (arith, rw (q, e', each_sector) at h))
      body (go st1) e' good q ih h =
          AllFull-suc v sector n good
            (creating-used v name attr sector (v.sectors (lba28 sector)) 0 16 st st1 e')
            (ih st1 (rw (q, e', each_sector) at h))

  AllFull-head :
      (v : Volume) (sector n : ℕ)
      → AllFull v sector (suc n)
      → (v.readable (lba28 sector) ≡ true) × Full (v.sectors (lba28 sector))
  AllFull-head v sector n full =
      let same : sector + 0 ≡ sector = omega arith in
      let first = full 0 (omega arith) in rw same at first

  AllFull-tail : (v : Volume) (sector n : ℕ) → AllFull v sector (suc n) → AllFull v (sector + 1) n
  AllFull-tail v sector n full m lt =
      let same : sector + 1 + m ≡ sector + suc m = omega arith in
      rw same (full (suc m) (omega arith))

  -- Full sectors without the name are passed over.
  pub find_sectors-go :
      (v : Volume) (sector n : ℕ) (st : Unit {0})
      → sector + n ≤ 2 ^ 31
      → AllFull v sector n
      → ((e : DirEntry × ℕ) → find_sectors v sector n st ≢ back (some e))
      → find_sectors v sector n st ≡ go st
  unfolding each_sector
  find_sectors-go v sector zero st small full none_found = refl
  find_sectors-go v sector (suc n) st small full none_found =
      let (good, here) = AllFull-head v sector n full in
      let read = ata_read_sector_good v sector good in
      let pass : find_body sector (v.sectors (lba28 sector)) st ≡ go st =
        finding-used v name attr sector (v.sectors (lba28 sector)) 0 16 st (omega arith) here
          (λ e h. none_found e (rw (read, h, each_sector) refl)) in
      rw (read, pass, each_sector)
        (find_sectors-go v (sector + 1) n st (omega arith) (AllFull-tail v sector n full)
          (λ e h. none_found e (rw (read, pass, each_sector) h)))

  -- Full sectors are as they were when another one has changed.
  pub find_sectors-same :
      (v w : Volume) (m : Made v w name attr) (sector n : ℕ) (st : Unit {0})
      → AllFull v sector n
      → find_sectors w sector n st ≡ find_sectors v sector n st
  unfolding each_sector
  find_sectors-same v w m sector zero st full = refl
  find_sectors-same v w m sector (suc n) st full =
      let (good, here) = AllFull-head v sector n full in
      let read = ata_read_sector_good v sector good in
      let read' : ata_read_sector w sector ≡ some (v.sectors (lba28 sector)) =
        ata_read_sector_good w sector (ap (λ x. x.readable (lba28 sector)) m.disk ∙ good)
        ∙ ap some (kept_sector v w name attr (lba28 sector) m here) in
      body (find_body sector (v.sectors (lba28 sector)) st) refl read read'
        (λ st'. find_sectors-same v w m (sector + 1) n st' (AllFull-tail v sector n full))
    where
      body :
          (f : Flow (Unit {0}) Found)
          → find_body sector (v.sectors (lba28 sector)) st ≡ f
          → ata_read_sector v sector ≡ some (v.sectors (lba28 sector))
          → ata_read_sector w sector ≡ some (v.sectors (lba28 sector))
          → ((st' : Unit {0})
              → find_sectors w (sector + 1) n st' ≡ find_sectors v (sector + 1) n st')
          → find_sectors w sector (suc n) st ≡ find_sectors v sector (suc n) st
      body (back a) e q q' ih = rw (q, q', e, each_sector) refl
      body (go st') e q q' ih = rw (q, q', e, each_sector) (ih st')
