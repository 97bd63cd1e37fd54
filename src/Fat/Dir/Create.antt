-- ===== src/Fat/Dir/Create.antt =====
-- `create_entry_at` and `find_entry` of fs/fat32.c within a sector.
use ovsb_mk.Base.{
  ℕ, zero, suc, ◌+◌, ◌^◌, ◌≤◌, ◌<◌, ◌≡◌, ◌≢◌, ◌∙◌, ap, sym, inl, inr, refl, List, true, false, some,
  arith, Bool-cases, ℕ_discrete, ℤ, pos,
}
use ovsb_mk.Fat.Types.{Volume, Bytes, err_io}
use ovsb_mk.Fat.Disk.{written, ata_write_sector-cases}
use ovsb_mk.Fat.Walk.{Flow, go, back, each_entry}
use ovsb_mk.Fat.Entry.{DirEntry, entry_at, fill_entry}
use ovsb_mk.Fat.Entry.Fields.{fill_entry-before}
use ovsb_mk.Fat.Dir.{Found, find_slot, create_slot, store}
use ovsb_mk.Fat.Dir.Find.{is_free, IsName, find_slot-passes, find_slot-same, find_slot-new}

-- A free entry ends the loop, and a used one does not.
create_slot-free :
    (v : Volume) (name : List ℕ) (attr sector : ℕ) (b : Bytes) (i : ℕ) (st : Unit {0})
    → is_free b i ≡ true
    → create_slot v name attr sector b i st
      ≡ back (store v sector (fill_entry b i name attr) (pos 0) err_io)
unfolding create_slot
create_slot-free v name attr sector b i st e = rw e refl

create_slot-used :
    (v : Volume) (name : List ℕ) (attr sector : ℕ) (b : Bytes) (i : ℕ) (st : Unit {0})
    → is_free b i ≡ false
    → create_slot v name attr sector b i st ≡ go st
unfolding create_slot
create_slot-used v name attr sector b i st e = rw e refl

-- A store that returns 0 has written the sector.
pub store-good :
    (v : Volume) (sector : ℕ) (b : Bytes) (r : ℤ × Volume)
    → store v sector b (pos 0) err_io ≡ r
    → r.0 ≡ pos 0
    → r.1 ≡ written v sector b
store-good v sector b r e z = elim (ata_write_sector-cases v sector b) [
  | inl (w, q) ↦ sym (ap (λ p. p.1) e) ∙ rw q refl
  | inr (w, q) ↦ absurd (ground (arith, e, q, z))
]

module _ (v : Volume) (name : List ℕ) (attr sector : ℕ) (b : Bytes) where
  abbrev pub creating : (i n : ℕ) → Unit {0} → Flow (Unit {0}) (ℤ × Volume)
  creating = each_entry (create_slot v name attr sector b)

  abbrev pub finding : Bytes → (i n : ℕ) → Unit {0} → Flow (Unit {0}) Found
  finding c = each_entry (find_slot name sector c)

  -- The entry `k` of the sector was free and has been filled.
  pub record Filled (i n : ℕ) (w : Volume) : Type 0 where
    pub slot : ℕ
    pub above : i ≤ slot
    pub below : slot < i + n
    pub was_free : is_free b slot ≡ true
    pub disk : w ≡ written v sector (fill_entry b slot name attr)
    pub found :
        (st : Unit {0})
        → finding (fill_entry b slot name attr) i n st
          ≡ back (some (entry_at (fill_entry b slot name attr) slot, sector))

  -- Where the loop goes through, no entry is free.
  pub creating-used :
      (i n : ℕ) (st st' : Unit {0})
      → creating i n st ≡ go st'
      → (j : ℕ) → i ≤ j
      → j < i + n
      → is_free b j ≡ false
  unfolding each_entry
  creating-used i zero st st' e j lo hi = absurd (omega arith)
  creating-used i (suc n) st st' e j lo hi = elim (Bool-cases (is_free b i)) [
    | inl f ↦
        absurd (ground (arith, rw (create_slot-free v name attr sector b i st f, each_entry) at e))
    | inr u ↦ elim (ℕ_discrete j i) [
      | yes q ↦ rw q u
      | no ne ↦
          creating-used (i + 1) n st st'
            (rw (create_slot-used v name attr sector b i st u, each_entry) at e) j (omega arith)
            (omega arith)
    ]
  ]

  -- No entry of a full range is what `find_entry` looks for: its loop goes through as well.
  pub finding-used :
      (i n : ℕ) (st : Unit {0})
      → sector < 2 ^ 31
      → ((j : ℕ) → i ≤ j → j < i + n → is_free b j ≡ false)
      → ((e : DirEntry × ℕ) → finding b i n st ≢ back (some e))
      → finding b i n st ≡ go st
  unfolding each_entry
  finding-used i zero st small used none_found = refl
  finding-used i (suc n) st small used none_found =
      let pass : find_slot name sector b i st ≡ go st =
        find_slot-passes name sector b i st small (used i (omega arith) (omega arith))
          (λ e h. none_found e (rw (h, each_entry) refl)) in
      rw (pass, each_entry)
        (finding-used (i + 1) n st small (λ j lo hi. used j (omega arith) (omega arith))
          (λ e h. none_found e (rw (pass, each_entry) h)))

  -- The entry is created, where none with its name was found.
  pub creating-Filled :
      (i n : ℕ) (r : ℤ × Volume)
      → IsName name
      → attr ≢ 0x0F
      → sector < 2 ^ 31
      → creating i n tt ≡ back r
      → r.0 ≡ pos 0
      → ((e : DirEntry × ℕ) → finding b i n tt ≢ back (some e))
      → Filled i n r.1
  unfolding each_entry
  creating-Filled i zero r name_ok visible small e z none_found = absurd (ground (arith, e))
  creating-Filled i (suc n) r name_ok visible small e z none_found =
      elim (Bool-cases (is_free b i)) [
        | inl f ↦
            let stored : store v sector (fill_entry b i name attr) (pos 0) err_io ≡ r =
              ground (arith, rw (create_slot-free v name attr sector b i tt f, each_entry) at e) in
            record {
              slot = i;
              above = omega arith;
              below = omega arith;
              was_free = f;
              disk = store-good v sector (fill_entry b i name attr) r stored z;
              found = λ st.
                  rw (find_slot-new name attr sector b i st name_ok visible small, each_entry) refl;
            }
        | inr u ↦
            let pass : find_slot name sector b i tt ≡ go tt =
              find_slot-passes name sector b i tt small u
                (λ x h. none_found x (rw (h, each_entry) refl)) in
            let c =
              creating-Filled (i + 1) n r name_ok visible small
                (rw (create_slot-used v name attr sector b i tt u, each_entry) at e) z
                (λ x h. none_found x (rw (pass, each_entry) h)) in
            record {
              slot = c.slot;
              above = omega (arith, c.above);
              below = omega (arith, c.below);
              was_free = c.was_free;
              disk = c.disk;
              found = λ st.
                  let same =
                    find_slot-same name sector b (fill_entry b c.slot name attr) i tt
                      (λ j lt. sym (
                        fill_entry-before b c.slot name attr j name_ok.full
                          (omega (arith, c.above))))
                      pass in
                  rw (same, each_entry) (c.found tt);
            }
      ]
