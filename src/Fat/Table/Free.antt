-- ===== src/Fat/Table/Free.antt =====
-- The search of fs/fat32.c for a free cluster, and a chain that grows by one.
use ovsb_mk.Base.{
  ℕ, zero, suc, ◌+◌, ◌-◌, ◌≤◌, ◌<◌, ◌≡◌, ◌≢◌, ◌⊎◌, inl, inr, refl, false, arith, ◌==◌, ℕ_discrete,
}
use ovsb_mk.Fat.Types.{Volume}
use ovsb_mk.Fat.Table.{fat_read_entry, find_free, fat_find_free, cluster_end}

-- `c` is the first free cluster from `start` on, below `end`.
pub record FirstFree (v : Volume) (start end c : ℕ) : Type 0 where
  pub above : start ≤ c
  pub below : c < end
  pub is_free : fat_read_entry v c ≡ 0
  pub first : (d : ℕ) → start ≤ d → d < c → fat_read_entry v d ≢ 0

find_free-cases :
    (v : Volume) (c n : ℕ)
    → FirstFree v c (c + n) (find_free v c n)
      ⊎ ((find_free v c n ≡ 0) × ((d : ℕ) → c ≤ d → d < c + n → fat_read_entry v d ≢ 0))
unfolding find_free
find_free-cases v c zero = inr (refl, λ d lo hi. absurd (omega arith))
find_free-cases v c (suc n) = elim (ℕ_discrete (fat_read_entry v c) 0) [
  | yes e ↦ rw e (
      inl (record {
        above = omega arith;
        below = omega arith;
        is_free = e;
        first = λ d lo hi. absurd (omega arith);
      }))
  | no ne ↦
      let test : (fat_read_entry v c == 0) ≡ false = ground arith in
      elim (find_free-cases v (c + 1) n) [
        | inl f ↦ rw test (
            inl (record {
              above = omega (arith, f.above);
              below = omega (arith, f.below);
              is_free = f.is_free;
              first = λ d lo hi. from_next d lo hi ne f.first;
            }))
        | inr (e, all) ↦ inr (rw test e, λ d lo hi. until_end d lo hi ne all)
      ]
]
  where
    from_next :
        {r : ℕ} (d : ℕ)
        → c ≤ d
        → d < r
        → fat_read_entry v c ≢ 0
        → ((d : ℕ) → c + 1 ≤ d → d < r → fat_read_entry v d ≢ 0)
        → fat_read_entry v d ≢ 0
    from_next d lo hi ne f = elim (ℕ_discrete d c) [
      | yes e ↦ rw e ne
      | no other ↦ f d (omega arith) hi
    ]

    until_end :
        (d : ℕ)
        → c ≤ d
        → d < c + suc n
        → fat_read_entry v c ≢ 0
        → ((d : ℕ) → c + 1 ≤ d → d < c + 1 + n → fat_read_entry v d ≢ 0)
        → fat_read_entry v d ≢ 0
    until_end d lo hi ne f = elim (ℕ_discrete d c) [
      | yes e ↦ rw e ne
      | no other ↦ f d (omega arith) (omega arith)
    ]

-- `fat_find_free` gives the first cluster of the volume whose entry reads as 0, and 0 if there is
-- none.
pub fat_find_free-FirstFree :
    (v : Volume)
    → FirstFree v 2 (cluster_end v) (fat_find_free v)
      ⊎ ((fat_find_free v ≡ 0) × ((d : ℕ) → 2 ≤ d → d < cluster_end v → fat_read_entry v d ≢ 0))
unfolding fat_find_free
fat_find_free-FirstFree v = elim (find_free-cases v 2 (cluster_end v - 2)) [
  | inl f ↦ inl (record {
    above = f.above;
    below = omega (arith, f.above, f.below);
    is_free = f.is_free;
    first = f.first;
  })
  | inr (e, all) ↦ inr (e, λ d lo hi. all d lo (omega arith))
]
