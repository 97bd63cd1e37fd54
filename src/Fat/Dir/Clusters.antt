-- ===== src/Fat/Dir/Clusters.antt =====
-- `create_entry_at` and `find_entry` of fs/fat32.c over the clusters of a directory.
use ovsb_mk.Base.{
  ℕ, zero, suc, ◌+◌, ◌-◌, ◌%◌, ◌^◌, ◌≤◌, ◌≡◌, ◌≢◌, ◌∙◌, ap, inl, inr, refl, List, true, Option,
  none, some, arith, Bool-cases, ℤ, pos,
}
use ovsb_mk.Fat.Types.{Volume, in_chain, cluster_to_sector, err_io}
use ovsb_mk.Fat.Disk.{written}
use ovsb_mk.Fat.Table.{fat_read_entry}
use ovsb_mk.Fat.Layout.{Geometry, InVolume, cluster_place, fat_read_entry-cluster}
use ovsb_mk.Fat.Walk.{Flow, go, back, each_cluster}
use ovsb_mk.Fat.Entry.{DirEntry, fill_entry}
use ovsb_mk.Fat.Dir.{Found}
use ovsb_mk.Fat.Dir.Find.{IsName}
use ovsb_mk.Fat.Dir.Sectors.{
  Made, AllFull, found_entry, create_body, find_body, create_sectors, find_sectors,
  create_sectors-AllFull, find_sectors-go, find_sectors-same,
}
use ovsb_mk.Fat.Dir.Created.{Created, create_sectors-Created}

-- The clusters of the chain are clusters of the volume, as far as they are followed.
abbrev pub ChainInVolume : Volume → (hops c : ℕ) → Type 0
ChainInVolume v zero c = Unit {0}
ChainInVolume v (suc hops) c =
    in_chain c ≡ true → InVolume v c × ChainInVolume v hops (fat_read_entry v c)

-- The clusters are where they were.
same_place :
    (v w : Volume) (name : List ℕ) (attr c : ℕ) (st : Unit {0})
    → Made v w name attr
    → find_sectors name attr w (cluster_to_sector w c) w.sectors_per_cluster st
      ≡ find_sectors name attr w (cluster_to_sector v c) v.sectors_per_cluster st
unfolding cluster_to_sector
same_place v w name attr c st m =
    ap (λ x. find_sectors name attr w (cluster_to_sector x c) x.sectors_per_cluster st) m.disk

module _ (name : List ℕ) (attr : ℕ) (v : Volume) (g : Geometry v) where
  abbrev pub create_clusters : (hops c : ℕ) → Unit {0} → Option (Flow (Unit {0}) (ℤ × Volume))
  create_clusters = each_cluster v (create_body name attr v) (λ st. back (err_io, v))

  abbrev pub find_clusters : Volume → (hops c : ℕ) → Unit {0} → Option (Flow (Unit {0}) Found)
  find_clusters w = each_cluster w (find_body name attr) (λ st. back none)

  -- The new entry is in a cluster, and is what `find_entry` comes to.
  pub record Entered (w : Volume) (hops c : ℕ) : Type 0 where
    pub made : Made v w name attr
    pub table : (d : ℕ) → InVolume v d → fat_read_entry w d ≡ fat_read_entry v d
    pub found : (st : Unit {0}) → find_clusters w hops c st ≡ some (back (some (found_entry made)))

  -- The new entry is in the first cluster.
  Entered-here :
      (w : Volume) (hops c : ℕ)
      → in_chain c ≡ true
      → InVolume v c
      → Created name attr v w (cluster_to_sector v c) v.sectors_per_cluster
      → Entered w (suc hops) c
  unfolding each_cluster cluster_to_sector
  Entered-here w hops c more c_in cr =
      let offset : cr.made.sector
          ≡ cluster_to_sector v c + (cr.made.sector - cluster_to_sector v c) =
        omega (arith, cr.above) in
      let kept : w
          ≡ written v cr.made.sector
              (fill_entry (v.sectors (cr.made.sector % 2 ^ 28)) cr.made.slot name attr) =
        cr.made.disk in
      record {
        made = cr.made;
        table = λ d d_in.
            rw (kept, offset)
              (fat_read_entry-cluster v d c (cr.made.sector - cluster_to_sector v c) _ g d_in.1 c_in
                (omega (arith, cr.above, cr.below)));
        found = λ st.
            let there = same_place v w name attr c st cr.made ∙ cr.found st in
            rw (more, there, each_cluster) refl;
      }

  -- The first cluster is full.
  Entered-later :
      (w : Volume) (hops c : ℕ)
      → in_chain c ≡ true
      → InVolume v c
      → AllFull name attr v (cluster_to_sector v c) v.sectors_per_cluster
      → ((st : Unit {0})
          → find_sectors name attr v (cluster_to_sector v c) v.sectors_per_cluster st ≡ go st)
      → Entered w hops (fat_read_entry v c)
      → Entered w (suc hops) c
  unfolding each_cluster
  Entered-later w hops c more c_in full pass en = record {
    made = en.made;
    table = en.table;
    found = λ st.
        let there =
          same_place v w name attr c st en.made
          ∙ find_sectors-same name attr v w en.made (cluster_to_sector v c) v.sectors_per_cluster st
              full
          ∙ pass st in
        rw (more, there, en.table c c_in, each_cluster) (en.found st);
  }

  -- The sectors of a cluster have small numbers.
  cluster_fits : (c : ℕ) → InVolume v c → cluster_to_sector v c + v.sectors_per_cluster ≤ 2 ^ 31
  cluster_fits c c_in = let fits = (cluster_place v c g c_in).1 in omega arith

  -- The entry is created in a cluster of the chain, where none with its name was found.
  pub create_clusters-Entered :
      (hops c : ℕ) (st : Unit {0}) (r : ℤ × Volume)
      → IsName name
      → attr ≢ 0x0F
      → ChainInVolume v hops c
      → create_clusters hops c st ≡ some (back r)
      → r.0 ≡ pos 0
      → ((e : DirEntry × ℕ) → find_clusters v hops c st ≢ some (back (some e)))
      → Entered r.1 hops c
  unfolding each_cluster
  create_clusters-Entered zero c st r name_ok visible chain e z none_found =
      absurd (ground (arith, e))
  create_clusters-Entered (suc hops) c st r name_ok visible chain e z none_found =
      elim (Bool-cases (in_chain c)) [
        | inr over ↦ absurd (ground (arith, rw (over, each_cluster) at e))
        | inl more ↦
            body (create_sectors name attr v (cluster_to_sector v c) v.sectors_per_cluster st) refl
              more (chain more).0
              (λ st1 e1 nf1.
                create_clusters-Entered hops (fat_read_entry v c) st1 r name_ok visible
                  ((chain more).1) e1 z nf1)
      ]
    where
      body :
          (f : Flow (Unit {0}) (ℤ × Volume))
          → create_sectors name attr v (cluster_to_sector v c) v.sectors_per_cluster st ≡ f
          → in_chain c ≡ true
          → InVolume v c
          → ((st1 : Unit {0})
              → create_clusters hops (fat_read_entry v c) st1 ≡ some (back r)
              → ((e : DirEntry × ℕ)
                  → find_clusters v hops (fat_read_entry v c) st1 ≢ some (back (some e)))
              → Entered r.1 hops (fat_read_entry v c))
          → Entered r.1 (suc hops) c
      body (back r') e' more c_in ih =
          let same : r' ≡ r = ground (arith, rw (more, e', each_cluster) at e) in
          Entered-here r.1 hops c more c_in (
            create_sectors-Created name attr v (cluster_to_sector v c) v.sectors_per_cluster st r
              name_ok visible (cluster_fits c c_in) (e' ∙ ap back same) z
              (λ x h. none_found x (rw (more, h, each_cluster) refl)))
      body (go st1) e' more c_in ih =
          let full =
            create_sectors-AllFull name attr v (cluster_to_sector v c) v.sectors_per_cluster st st1
              e' in
          let pass : (st0 : Unit {0})
              → find_sectors name attr v (cluster_to_sector v c) v.sectors_per_cluster st0
                ≡ go st0 =
            λ st0.
              find_sectors-go name attr v (cluster_to_sector v c) v.sectors_per_cluster st0
                (cluster_fits c c_in) full
                (λ x h. none_found x (rw (more, h, each_cluster) refl)) in
          Entered-later r.1 hops c more c_in full pass (
            ih st1 (rw (more, e', each_cluster) at e)
              (λ x h. none_found x (rw (more, pass st, each_cluster) h)))
