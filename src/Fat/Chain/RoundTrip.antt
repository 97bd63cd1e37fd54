-- ===== src/Fat/Chain/RoundTrip.antt =====
-- `write_chain` and then `read_chain` of fs/fat32.c over a chain of clusters that is long enough.
use ovsb_mk.Base.{
  ℕ, suc, ◌+◌, ◌-◌, ◌*◌, ◌≤◌, ◌<◌, ◌≡◌, ◌≢◌, ◌⊎◌, ◌∙◌, ap, sym, inl, inr, refl, List, [], ◌∷◌, ◌++◌,
  true, false, some, arith, ◌==◌, leb, length, take, drop, Bool-cases, take-append-drop,
  length-take, length-drop, take_all, drop_all, append_nil,
}
use ovsb_mk.Fat.Types.{Volume, Bytes, in_chain, cluster_to_sector}
use ovsb_mk.Fat.Disk.{on}
use ovsb_mk.Fat.Layout.{
  Geometry, InVolume, member, place, clusters_apart, cluster_place, fat_read_entry-on,
}
use ovsb_mk.Fat.Table.{fat_read_entry}
use ovsb_mk.Fat.Table.Entries.{Answers}
use ovsb_mk.Fat.Chain.{
  cluster_bytes, read_cluster, read_chain, got, min32, write_cluster, write_chain,
}
use ovsb_mk.Fat.Chain.Read.{read_cluster-same, read_chain_done, read_chain_round}
use ovsb_mk.Fat.Chain.Write.{
  write_cluster-written, write_chain_last, write_chain_round, next_cluster_linked,
}

-- From `c` on the chain goes over the clusters of the list, all of them different clusters of the
-- volume; how it goes on behind them is left open.
abbrev pub Run : Volume → ℕ → List ℕ → Type 0
Run v c [] = InVolume v c
Run v c (d ∷ ds) =
    InVolume v c × (fat_read_entry v c ≡ d) × (member c (d ∷ ds) ≡ false) × Run v d ds

-- A sector in none of the clusters.
abbrev pub Away : Volume → ℕ → List ℕ → Type 0
Away v s cs =
    (d : ℕ) → member d cs ≡ true → (s < place v d) ⊎ (place v d + v.sectors_per_cluster ≤ s)

Run-head : (v : Volume) (c : ℕ) (cs : List ℕ) → Run v c cs → InVolume v c
Run-head v c [] r = r
Run-head v c (d ∷ ds) r = r.0

Run-InVolume :
    (v : Volume) (c e : ℕ) (cs : List ℕ) → Run v c cs → member e (c ∷ cs) ≡ true → InVolume v e
Run-InVolume v c e [] r m = let same : c ≡ e = ground (arith, m) in rw⁻¹ same r
Run-InVolume v c e (d ∷ ds) (here, link, new, rest) m = elim (Bool-cases (e == c)) [
  | inl first ↦ let same : c ≡ e = ground (arith, first) in rw⁻¹ same here
  | inr later ↦ Run-InVolume v d e ds rest (ground (arith, later, m))
]

Run-on :
    (v : Volume) (f : ℕ → Bytes) (c : ℕ) (cs : List ℕ)
    → Geometry v
    → ((s : ℕ) → s < v.first_data_sector → f s ≡ v.sectors s)
    → Run v c cs
    → Run (on v f) c cs
Run-on v f c [] g same r = r
Run-on v f c (d ∷ ds) g same (here, link, new, rest) =
    (here, fat_read_entry-on v f c g here.1 same ∙ link, new, Run-on v f d ds g same rest)

InVolume-in_chain : (v : Volume) (c : ℕ) → Geometry v → InVolume v c → in_chain c ≡ true
InVolume-in_chain v c g (lo, hi) =
    let small : c < 0x0FFFFFF8 = omega (arith, g.ends) in ground arith

-- The sector of a cluster is where it was.
cluster_to_sector-on :
    (v : Volume) (f : ℕ → Bytes) (c : ℕ)
    → Geometry v
    → InVolume v c
    → cluster_to_sector (on v f) c ≡ place v c
unfolding cluster_to_sector
cluster_to_sector-on v f c g c_in = (cluster_place v c g c_in).0

min32_small : (a b : ℕ) → a ≤ b → min32 a b ≡ a
min32_small a b h = ground arith

min32_large : (a b : ℕ) → b ≤ a → min32 a b ≡ b
min32_large a b h = ground arith

-- What the theorem says of a file.
abbrev pub Stored : Volume → (c : ℕ) (cs xs : List ℕ) → Type 0
Stored v c cs xs =
    (f : ℕ → Bytes) × (write_chain v (suc (length cs)) c xs ≡ some (true, on v f))
    × ((s : ℕ) → Away v s (c ∷ cs) → f s ≡ v.sectors s)
    × (read_chain (on v f) (suc (suc (length cs))) c (length xs) ≡ some (got xs))

-- The bytes fit into the first cluster.
Stored-last :
    (v : Volume) (c : ℕ) (cs : List ℕ) (x : ℕ) (xs : List ℕ)
    → Geometry v
    → Answers v
    → InVolume v c
    → length (x ∷ xs) ≤ cluster_bytes v
    → Stored v c cs (x ∷ xs)
Stored-last v c cs x xs g a c_in fits =
    let (at, room) = cluster_place v c g c_in in
    let (f, done, away, back) =
      write_cluster-written v (cluster_to_sector v c) v.sectors_per_cluster (x ∷ xs) a (omega arith)
        (omega arith) in
    let now = take_all (cluster_bytes v) (x ∷ xs) fits in
    let later = drop_all (cluster_bytes v) (x ∷ xs) fits in
    let there : cluster_to_sector (on v f) c ≡ cluster_to_sector v c =
      cluster_to_sector-on v f c g c_in ∙ sym at in
    (
      f,
      write_chain_last v (on v f) (length cs) c x xs later
          (ap (write_cluster v (cluster_to_sector v c)) now ∙ done),
      (λ s out. away s (rw at (out c (ground arith)))),
      read_chain_round (on v f) (suc (length cs)) c (length (x ∷ xs)) (length (x ∷ xs)) (x ∷ xs)
            (got []) (InVolume-in_chain v c g c_in) (omega arith) (min32_small _ _ fits)
            (ap (λ s. read_cluster (on v f) s (length (x ∷ xs))) there ∙ back)
            (read_chain_done (on v f) (length cs) _ _ (omega arith))
          ∙ ap (λ l. some (got l)) (append_nil (x ∷ xs)),
    )

-- A sector of a cluster is in none of the clusters behind it.
own-Away :
    (v : Volume) (c d : ℕ) (ds : List ℕ) (s : ℕ)
    → InVolume v c
    → member c (d ∷ ds) ≡ false
    → Run v d ds
    → place v c ≤ s
    → s < place v c + v.sectors_per_cluster
    → Away v s (d ∷ ds)
own-Away v c d ds s c_in new rest lo hi e m =
    let apart : c ≢ e = λ same. ground (arith, new, m, ap (λ x. member x (d ∷ ds)) same) in
    clusters_apart v c e s c_in.0 ((Run-InVolume v d e ds rest m).0) apart lo hi

-- The step over a cluster: more bytes follow it.
Stored-round :
    (v : Volume) (c d : ℕ) (ds : List ℕ) (x : ℕ) (xs : List ℕ) (y : ℕ) (ys : List ℕ)
    → Geometry v
    → Answers v
    → InVolume v c
    → fat_read_entry v c ≡ d
    → member c (d ∷ ds) ≡ false
    → Run v d ds
    → cluster_bytes v < length (x ∷ xs)
    → drop (cluster_bytes v) (x ∷ xs) ≡ y ∷ ys
    → ((f : ℕ → Bytes)
        → ((s : ℕ) → s < v.first_data_sector → f s ≡ v.sectors s)
        → Stored (on v f) d ds (y ∷ ys))
    → Stored v c (d ∷ ds) (x ∷ xs)
Stored-round v c d ds x xs y ys g a c_in link new rest long more ih =
    let (at, room) = cluster_place v c g c_in in
    let now = take (cluster_bytes v) (x ∷ xs) in
    let size : length now ≡ cluster_bytes v =
      omega (arith, length-take (cluster_bytes v) (x ∷ xs)) in
    let left : length (x ∷ xs) - cluster_bytes v ≡ length (y ∷ ys) =
      sym (length-drop (cluster_bytes v) (x ∷ xs)) ∙ ap length more in
    let (f1, done1, away1, back1) =
      write_cluster-written v (cluster_to_sector v c) v.sectors_per_cluster now a (omega arith)
        (omega arith) in
    let low1 : (s : ℕ) → s < v.first_data_sector → f1 s ≡ v.sectors s =
      λ s lt. away1 s (inl (omega arith)) in
    let (f2, done2, away2, back2) = ih f1 low1 in
    let low2 : (s : ℕ) → s < v.first_data_sector → f2 s ≡ v.sectors s =
      λ s lt. away2 s (λ e m. inl (omega arith)) ∙ low1 s lt in
    let there : cluster_to_sector (on v f2) c ≡ cluster_to_sector v c =
      cluster_to_sector-on v f2 c g c_in ∙ sym at in
    let kept =
      read_cluster-same (on v f1) f2 (cluster_to_sector v c) v.sectors_per_cluster (cluster_bytes v)
        (omega arith) (omega arith)
        (λ s lo hi. away2 s (own-Away v c d ds s c_in new rest (omega arith) (omega arith))) in
    let d_in = Run-head v d ds rest in
    let next =
      next_cluster_linked (on v f1) c d (fat_read_entry-on v f1 c g c_in.1 low1 ∙ link)
        (omega (arith, d_in.0)) (omega (arith, d_in.1, g.ends)) in
    (
      f2,
      write_chain_round v (on v f1) (suc (length ds)) c d x xs y ys more done1 next
            (omega (arith, d_in.0))
          ∙ done2,
      (λ s out.
          away2 s (λ e m. out e (ground (arith, m))) ∙ away1 s (rw at (out c (ground arith)))),
      read_chain_round (on v f2) (suc (suc (length ds))) c (length (x ∷ xs)) (cluster_bytes v) now
            (got (y ∷ ys)) (InVolume-in_chain v c g c_in) (omega arith)
            (min32_large _ _ (omega arith))
            (ap (λ s. read_cluster (on v f2) s (cluster_bytes v)) there
              ∙ kept
              ∙ ap (read_cluster (on v f1) (cluster_to_sector v c)) (sym size)
              ∙ back1)
            (ap
                (λ e.
                  read_chain (on v f2) (suc (suc (length ds))) e
                    (length (x ∷ xs) - cluster_bytes v))
                (fat_read_entry-on v f2 c g c_in.1 low2 ∙ link)
              ∙ ap (read_chain (on v f2) (suc (suc (length ds))) d) left
              ∙ back2)
          ∙ ap (λ l. some (got (now ++ l))) (sym more)
          ∙ ap (λ l. some (got l)) (take-append-drop (cluster_bytes v) (x ∷ xs)),
    )

-- Bytes that fit into the clusters of a chain, all of them different clusters of the volume, on a
-- drive that answers: `write_chain` writes them all, within as many rounds as there are clusters;
-- it changes no sector outside these clusters; and `read_chain` with their number then reads the
-- bytes back, with one round more.
pub read_chain-write_chain :
    (v : Volume) (c : ℕ) (cs xs : List ℕ)
    → Geometry v
    → Answers v
    → Run v c cs
    → length xs ≤ (length cs + 1) * cluster_bytes v
    → Stored v c cs xs
unfolding write_chain
read_chain-write_chain v c cs [] g a r fits =
    (v.sectors, refl, (λ s out. refl), read_chain_done v (suc (length cs)) c 0 refl)
read_chain-write_chain v c [] (x ∷ xs) g a r fits = Stored-last v c [] x xs g a r (omega arith)
read_chain-write_chain v c (d ∷ ds) (x ∷ xs) g a (c_in, link, new, rest) fits =
    elim (Bool-cases (leb (length (x ∷ xs)) (cluster_bytes v))) [
      | inl one ↦ Stored-last v c (d ∷ ds) x xs g a c_in (ground (arith, one))
      | inr many ↦
          behind_it (drop (cluster_bytes v) (x ∷ xs)) refl (ground (arith, many)) (λ f same l short.
            read_chain-write_chain (on v f) d ds l
              (record { table = g.table; clusters = g.clusters; ends = g.ends })
              (record { reads = a.reads; writes = a.writes }) (Run-on v f d ds g same rest) short)
    ]
  where
    behind_it :
        (later : List ℕ)
        → drop (cluster_bytes v) (x ∷ xs) ≡ later
        → cluster_bytes v < length (x ∷ xs)
        → ((f : ℕ → Bytes)
            → ((s : ℕ) → s < v.first_data_sector → f s ≡ v.sectors s)
            → (l : List ℕ) → length l ≤ (length ds + 1) * cluster_bytes v
            → Stored (on v f) d ds l)
        → Stored v c (d ∷ ds) (x ∷ xs)
    behind_it [] e long ih =
        absurd (omega (arith, length-drop (cluster_bytes v) (x ∷ xs), ap length e, long))
    behind_it (y ∷ ys) e long ih =
        let size : length (y ∷ ys) ≡ length (x ∷ xs) - cluster_bytes v =
          ap length (sym e) ∙ length-drop (cluster_bytes v) (x ∷ xs) in
        let total : (length (d ∷ ds) + 1) * cluster_bytes v
            ≡ (length ds + 1) * cluster_bytes v + cluster_bytes v =
          grind arith in
        Stored-round v c d ds x xs y ys g a c_in link new rest long e
          (λ f same. ih f same (y ∷ ys) (omega (arith, size, total, fits)))
