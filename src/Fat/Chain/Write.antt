-- ===== src/Fat/Chain/Write.antt =====
-- `write_chain` of fs/fat32.c, cluster by cluster: the sectors that it writes.
use ovsb_mk.Base.{
  ℕ, zero, suc, ◌+◌, ◌*◌, ◌/◌, ◌%◌, ◌^◌, ◌≤◌, ◌<◌, ◌≡◌, ◌≢◌, ◌⊎◌, ◌∙◌, ap, sym, inl, inr, refl,
  List, [], ◌∷◌, ◌++◌, true, false, some, arith, ◌==◌, leb, length, take, drop, Bool-cases,
  take-append-drop, length-take, length-drop, take_add, take_all,
}
use ovsb_mk.Fat.Types.{
  Volume, Bytes, ata_read_sector, lba28, bytes_from, put_bytes, cluster_to_sector,
}
use ovsb_mk.Fat.Disk.{on, written, ata_read_sector_good, ata_write_sector_good}
use ovsb_mk.Fat.Entry.Fields.{bytes_from-put_bytes}
use ovsb_mk.Fat.Table.{fat_read_entry}
use ovsb_mk.Fat.Table.Entries.{Answers}
use ovsb_mk.Fat.Chain.{
  cluster_bytes, read_sectors, read_cluster, write_sectors, write_cluster, write_chain,
  next_cluster,
}
use ovsb_mk.Fat.Chain.Read.{read_sectors-same}

-- Outside the sectors from `lo` up to `hi` the contents agree.
abbrev pub Outside : (f g : ℕ → Bytes) → (lo hi : ℕ) → Type 0
Outside f g lo hi = (s : ℕ) → (s < lo) ⊎ (hi ≤ s) → f s ≡ g s

-- The bytes at the beginning of a sector.
pub first_bytes :
    (b : Bytes) (xs : List ℕ) (n : ℕ) → length xs ≡ n → bytes_from (put_bytes b 0 xs) 0 n ≡ xs
first_bytes b xs n e = ap (bytes_from (put_bytes b 0 xs) 0) (sym e) ∙ bytes_from-put_bytes xs b 0

-- Outside a range is outside a part of it, and no place within it.
narrower : (lo hi lo' hi' s : ℕ) → lo ≤ lo' → hi' ≤ hi → (s < lo) ⊎ (hi ≤ s) → (s < lo') ⊎ (hi' ≤ s)
narrower lo hi lo' hi' s l h (inl lt) = inl (omega arith)
narrower lo hi lo' hi' s l h (inr ge) = inr (omega arith)

beyond : (m lo hi s : ℕ) → lo ≤ m → m < hi → (s < lo) ⊎ (hi ≤ s) → s ≢ m
beyond m lo hi s l h (inl lt) = omega arith
beyond m lo hi s l h (inr ge) = omega arith

written-here : (v : Volume) (s : ℕ) (b : Bytes) → s < 2 ^ 28 → (written v s b).sectors s ≡ b
written-here v s b small =
    let hit : (s == lba28 s) ≡ true =
      let place : lba28 s ≡ s = omega arith in rw place (ground arith) in
    rw hit refl

written-away :
    (v : Volume) (s t : ℕ) (b : Bytes)
    → s < 2 ^ 28
    → t ≢ s
    → (written v s b).sectors t ≡ v.sectors t
written-away v s t b small ne =
    let miss : (t == lba28 s) ≡ false =
      let place : lba28 s ≡ s = omega arith in rw place (ground arith) in
    rw miss refl

-- A sector that has been written, where the disk may have changed elsewhere.
read_here :
    (v : Volume) (f : ℕ → Bytes) (s : ℕ) (b : Bytes)
    → Answers v
    → s < 2 ^ 28
    → f s ≡ b
    → ata_read_sector (on v f) s ≡ some b
read_here v f s b a small e =
    let place : lba28 s ≡ s = omega arith in
    ata_read_sector_good (on v f) s (a.reads _) ∙ ap (λ t. some (f t)) place ∙ ap some e

-- Whole sectors.
pub write_sectors-written :
    (v : Volume) (sector n : ℕ) (xs : List ℕ)
    → Answers v
    → sector + n ≤ 2 ^ 28
    → 512 * n ≤ length xs
    → (f : ℕ → Bytes) × (write_sectors v sector n xs ≡ (true, on v f))
      × Outside f v.sectors sector (sector + n)
      × (read_sectors (on v f) sector n ≡ some (take (512 * n) xs))
unfolding write_sectors read_sectors
write_sectors-written v sector zero xs a small long = (v.sectors, refl, (λ s away. refl), refl)
write_sectors-written v sector (suc n) xs a small long =
    let b = put_bytes (λ i. 0) 0 (take 512 xs) in
    let put = ata_write_sector_good v sector b (a.writes _) in
    let size : length (take 512 xs) ≡ 512 = omega (arith, length-take 512 xs) in
    let (f, rest, away, back) =
      write_sectors-written (written v sector b) (sector + 1) n (drop 512 xs)
        (record { reads = a.reads; writes = a.writes }) (omega arith)
        (omega (arith, length-drop 512 xs)) in
    let here = away sector (inl (omega arith)) ∙ written-here v sector b (omega arith) in
    let read = read_here v f sector b a (omega arith) here in
    let count : 512 * suc n ≡ 512 + 512 * n = omega arith in
    (
      f,
      rw (write_sectors, put) rest,
      (λ s far.
          away s (
            narrower sector (sector + suc n) (sector + 1) (sector + 1 + n) s (omega arith)
              (omega arith) far)
          ∙ written-away v sector s b (omega arith)
              (beyond sector sector (sector + suc n) s (omega arith) (omega arith) far)),
      rw (read_sectors, read, back, count, take_add 512 (512 * n) xs)
          (ap (λ l. some (l ++ take (512 * n) (drop 512 xs)))
            (first_bytes (λ i. 0) (take 512 xs) 512 size)),
    )

-- A cluster of `k` sectors: the bytes are read back, whatever stood there.
pub write_cluster-written :
    (v : Volume) (sector k : ℕ) (xs : List ℕ)
    → Answers v
    → sector + k ≤ 2 ^ 28
    → length xs ≤ 512 * k
    → (f : ℕ → Bytes) × (write_cluster v sector xs ≡ (true, on v f))
      × Outside f v.sectors sector (sector + k)
      × (read_cluster (on v f) sector (length xs) ≡ some xs)
unfolding write_cluster read_cluster
write_cluster-written v sector k xs a small fits =
    let n = length xs / 512 in
    let (f, done, away, back) = write_sectors-written v sector n xs a (omega arith) (omega arith) in
    elim (Bool-cases (length xs % 512 == 0)) [
      | inl even ↦
          let whole : take (512 * n) xs ≡ xs = take_all (512 * n) xs (ground (arith, even)) in
          (
            f,
            rw (write_cluster, done, even) refl,
            (λ s far. away s (
                narrower sector (sector + k) sector (sector + n) s (omega arith) (omega arith)
                  far)),
            rw (read_cluster, back, even, whole) refl,
          )
      | inr odd ↦
          let m = sector + n in
          let b = put_bytes (f m) 0 (drop (n * 512) xs) in
          let room' : sector + n < sector + k = ground (arith, odd) in
          let room : sector + n < 2 ^ 28 = omega arith in
          let read = read_here v f m (f m) a room refl in
          let put = ata_write_sector_good (on v f) m b (a.writes _) in
          let f' = (written (on v f) m b).sectors in
          let whole =
            read_sectors-same (on v f) f' sector n (omega arith)
              (λ s lo hi. written-away (on v f) m s b room (omega arith)) in
          let last = read_here v f' m b a room (written-here (on v f) m b room) in
          let tail =
            first_bytes (f m) (drop (n * 512) xs) (length xs % 512)
              (omega (arith, length-drop (n * 512) xs)) in
          let swap : 512 * n ≡ n * 512 = omega arith in
          (
            f',
            rw (write_cluster, done, odd, read, done) put,
            (λ s far.
                written-away (on v f) m s b room
                  (beyond (sector + n) sector (sector + k) s (omega arith) room' far)
                ∙ away s (
                    narrower sector (sector + k) sector (sector + n) s (omega arith) (omega arith)
                      far)),
            rw (read_cluster, whole, back, odd, last, tail, swap)
                (ap some (take-append-drop (n * 512) xs)),
          )
    ]

-- The last round.
pub write_chain_last :
    (v w : Volume) (rounds c x : ℕ) (xs : List ℕ)
    → drop (cluster_bytes v) (x ∷ xs) ≡ []
    → write_cluster v (cluster_to_sector v c) (take (cluster_bytes v) (x ∷ xs)) ≡ (true, w)
    → write_chain v (suc rounds) c (x ∷ xs) ≡ some (true, w)
unfolding write_chain
write_chain_last v w rounds c x xs last done = rw (write_chain, done, last, done) refl

-- A round with bytes behind it.
pub write_chain_round :
    (v w : Volume) (rounds c d x : ℕ) (xs : List ℕ) (y : ℕ) (ys : List ℕ)
    → drop (cluster_bytes v) (x ∷ xs) ≡ y ∷ ys
    → write_cluster v (cluster_to_sector v c) (take (cluster_bytes v) (x ∷ xs)) ≡ (true, w)
    → next_cluster w c ≡ (d, w)
    → d ≢ 0
    → write_chain v (suc rounds) c (x ∷ xs) ≡ write_chain w rounds d (y ∷ ys)
unfolding write_chain
write_chain_round v w rounds c d x xs y ys more done next ne =
    let linked : (d == 0) ≡ false = ground arith in
    rw (write_chain, done, more, done, next, linked) (ap (write_chain w rounds d) more)

-- Where the chain goes on, it does not grow.
pub next_cluster_linked :
    (v : Volume) (c d : ℕ)
    → fat_read_entry v c ≡ d
    → d ≢ 0
    → d < 0x0FFFFFF8
    → next_cluster v c ≡ (d, v)
unfolding next_cluster
next_cluster_linked v c d e ne lt =
    let some_next : (d == 0) ≡ false = ground arith in
    let no_end : leb 0x0FFFFFF8 d ≡ false = ground arith in
    rw (next_cluster, e, some_next, no_end) refl
