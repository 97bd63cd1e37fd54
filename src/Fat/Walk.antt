-- ===== src/Fat/Walk.antt =====
-- The loops of fs/fat32.c over a directory: over the clusters of its chain, the sectors of a
-- cluster, and the 16 entries of a sector. The functions of fs/fat32.c repeat them with different
-- bodies, which are arguments here.
use ovsb_mk.Base.{ℕ, zero, suc, ◌+◌, Option, none, some, if◌then◌else◌}
use ovsb_mk.Fat.Types.{Volume, Bytes, ata_read_sector, cluster_to_sector, in_chain}
use ovsb_mk.Fat.Table.{fat_read_entry}

-- How a body ends: `continue`, or `return`.
pub data Flow (S A : Type 0) : Type 0 where
  go : S → Flow S A
  back : A → Flow S A

module _ {S A : Type 0} where
  -- `for (int i = ..; i < 16; i++)`, with `n` entries to go.
  unfoldable pub each_entry : (ℕ → S → Flow S A) → (i n : ℕ) → S → Flow S A
  each_entry body i zero st = go st
  each_entry body i (suc n) st = elim (body i st) [
    | back a ↦ back a
    | go st' ↦ each_entry body (i + 1) n st'
  ]

  module _ (v : Volume) (body : ℕ → Bytes → S → Flow S A) (on_error : S → Flow S A) where
    -- `for (uint32_t s = ..; s < sectors_per_cluster; s++)`, with `n` sectors to go; `on_error` is
    -- what is done for a sector that cannot be read.
    unfoldable pub each_sector : (sector n : ℕ) → S → Flow S A
    each_sector sector zero st = go st
    each_sector sector (suc n) st = elim (ata_read_sector v sector) [
      | none ↦ on_error st
      | some b ↦ elim (body sector b st) [
        | back a ↦ back a
        | go st' ↦ each_sector (sector + 1) n st'
      ]
    ]

    -- `while (cluster >= 2 && cluster < 0x0FFFFFF8)`, with at most `hops` clusters; `none` if the
    -- chain is longer.
    unfoldable pub each_cluster : (hops cluster : ℕ) → S → Option (Flow S A)
    each_cluster zero cluster st = none
    each_cluster (suc hops) cluster st =
        let sectors = each_sector (cluster_to_sector v cluster) v.sectors_per_cluster st in
        if in_chain cluster
        then elim sectors [
          | back a ↦ some (back a)
          | go st' ↦ each_cluster hops (fat_read_entry v cluster) st'
        ]
        else some (go st)

  -- The result of the loops, with what is returned behind them.
  abbrev pub finish : (S → A) → Option (Flow S A) → Option A
  finish end none = none
  finish end (some (go st)) = some (end st)
  finish end (some (back a)) = some a
