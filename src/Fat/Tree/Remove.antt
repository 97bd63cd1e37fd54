-- ===== src/Fat/Tree/Remove.antt =====
-- What `fat32_rmdir` of fs/fat32.c gives back to the table.
use ovsb_mk.Base.{
  ℕ, suc, ◌%◌, ◌^◌, ◌<◌, ◌≡◌, ◌≢◌, ◌∙◌, refl, List, [], ◌∷◌, true, false, some, arith, ◌==◌,
  if◌then◌else◌, length,
}
use ovsb_mk.Fat.Types.{Volume, in_chain}
use ovsb_mk.Fat.Table.{fat_read_entry, fat_write_entry}
use ovsb_mk.Fat.Table.Entries.{
  IsTable, Answers, fat_read_entry-fat_write_entry, fat_write_entry-IsTable,
  fat_write_entry-Answers,
}
use ovsb_mk.Fat.Layout.{member}
use ovsb_mk.Fat.Tree.{free_chain}

-- The chain from `c` goes on with the clusters of the list, all different, and ends.
abbrev pub IsChain : Volume → ℕ → List ℕ → Type 0
IsChain v c [] = (c < 2 ^ 28) × (in_chain (fat_read_entry v c) ≡ false)
IsChain v c (d ∷ ds) =
    (c < 2 ^ 28)
    × (fat_read_entry v c ≡ d)
    × (in_chain d ≡ true)
    × (member c (d ∷ ds) ≡ false)
    × IsChain v d ds

-- A change of an entry outside a chain keeps the chain.
IsChain-kept :
    (v w : Volume) (x c : ℕ) (ds : List ℕ)
    → ((d : ℕ) → d < 2 ^ 28 → x ≢ d → fat_read_entry w d ≡ fat_read_entry v d)
    → member x (c ∷ ds) ≡ false
    → IsChain v c ds
    → IsChain w c ds
IsChain-kept v w x c [] same out (lt, last) =
    (lt, rw (same c lt (λ e. ground (arith, out, e))) last)
IsChain-kept v w x c (d ∷ ds) same out (lt, link, inside, new, rest) = (
  lt,
  same c lt (λ e. ground (arith, out, e)) ∙ link,
  inside,
  new,
  IsChain-kept v w x d ds same (ground (arith, out)) rest,
)

-- On a drive that answers, the loop of `fat32_rmdir` over a chain of different clusters ends within a
-- round for each of them; they then read as 0, and all other clusters as before. The table lies
-- within the numbers of the drive.
pub free_chain-frees :
    (v : Volume) (c : ℕ) (ds : List ℕ)
    → IsTable v
    → Answers v
    → IsChain v c ds
    → (v' : Volume) × (free_chain v (suc (length ds)) c ≡ some v')
      × ((d : ℕ)
          → d < 2 ^ 28
          → fat_read_entry v' d ≡ (if member d (c ∷ ds) then 0 else fat_read_entry v d))
unfolding free_chain
free_chain-frees v c [] t a (lt, last) =
    let (good, more) = fat_write_entry-Answers v c 0 a in
    (
      (fat_write_entry v c 0).1,
      rw last refl,
      λ d ld. ground (arith, fat_read_entry-fat_write_entry v c 0 d t lt ld good),
    )
free_chain-frees v c (d ∷ ds) t a (lt, link, inside, new, rest) =
    let (good, more) = fat_write_entry-Answers v c 0 a in
    let w = (fat_write_entry v c 0).1 in
    let same = λ (x : ℕ) (lx : x < 2 ^ 28) (ne : c ≢ x).
      fat_read_entry-fat_write_entry v c 0 x t lt lx good ∙ off c x ne in
    let (v', e, entries) =
      free_chain-frees w d ds (fat_write_entry-IsTable v c 0 t) more
        (IsChain-kept v w c d ds same new rest) in
    (
      v',
      rw (link, inside) e,
      λ x lx. ground (arith, entries x lx, fat_read_entry-fat_write_entry v c 0 x t lt lx good),
    )
  where
    off : (c x : ℕ) {y : ℕ} → c ≢ x → (if c == x then 0 % 2 ^ 28 else y) ≡ y
    off c x ne = ground arith
