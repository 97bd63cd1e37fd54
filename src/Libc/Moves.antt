-- ===== src/Libc/Moves.antt =====
-- `memmove` of userland/libc/string.c: the loops up and down.
use ovsb_mk.Base.{
  ℕ, zero, suc, ◌+◌, ◌-◌, ◌<◌, ◌≡◌, ◌∙◌, ap, inl, inr, refl, true, false, ◌&&◌, arith, ◌==◌, ltb,
  leb, if◌then◌else◌, Bool-cases, ℕ_discrete,
}
use ovsb_mk.Libc.{Mem, poke, copy_up, copy_down, memmove}

-- The memory behind a move of all bytes at once.
abbrev pub moved : Mem → (dst src lo hi : ℕ) → Mem
moved m dst src lo hi j = if leb (dst + lo) j && ltb j (dst + hi) then m (src + (j - dst)) else m j

copy_up-moved :
    (m : Mem) (dst src i n j : ℕ)
    → dst < src
    → copy_up m dst src i n j ≡ moved m dst src i (i + n) j
unfolding copy_up
copy_up-moved m dst src i zero j below = ground arith
copy_up-moved m dst src i (suc n) j below =
    copy_up-moved (poke m (dst + i) (m (src + i))) dst src (i + 1) n j below ∙ step
  where
    step :
        moved (poke m (dst + i) (m (src + i))) dst src (i + 1) (i + 1 + n) j
        ≡ moved m dst src i (i + suc n) j
    step = elim (ℕ_discrete j (dst + i)) [
      | yes e ↦
          let place : src + (j - dst) ≡ src + i = omega arith in
          let first : (leb (dst + (i + 1)) j && ltb j (dst + (i + 1 + n))) ≡ false = ground arith in
          let hit : (j == dst + i) ≡ true = ground arith in
          let inside : (leb (dst + i) j && ltb j (dst + (i + suc n))) ≡ true = ground arith in
          rw (first, hit, inside, place) refl
      | no ne ↦ ground arith
    ]

copy_down-moved :
    (m : Mem) (dst src n j : ℕ) → src < dst → copy_down m dst src n j ≡ moved m dst src 0 n j
unfolding copy_down
copy_down-moved m dst src zero j above = ground arith
copy_down-moved m dst src (suc n) j above =
    copy_down-moved (poke m (dst + n) (m (src + n))) dst src n j above ∙ step
  where
    step : moved (poke m (dst + n) (m (src + n))) dst src 0 n j ≡ moved m dst src 0 (suc n) j
    step = elim (ℕ_discrete j (dst + n)) [
      | yes e ↦
          let place : src + (j - dst) ≡ src + n = omega arith in
          let behind : (leb (dst + 0) j && ltb j (dst + n)) ≡ false = ground arith in
          let hit : (j == dst + n) ≡ true = ground arith in
          let inside : (leb (dst + 0) j && ltb j (dst + suc n)) ≡ true = ground arith in
          rw (behind, hit, inside, place) refl
      | no ne ↦ ground arith
    ]

-- `memmove` leaves the memory in which the bytes from `src` on have been moved to `dst` all at once,
-- however the two ranges overlap, and every other byte is kept.
pub memmove-moved : (m : Mem) (dst src n j : ℕ) → memmove m dst src n j ≡ moved m dst src 0 n j
unfolding memmove
memmove-moved m dst src n j = elim (Bool-cases (ltb dst src)) [
  | inl up ↦
      rw up
        (copy_up-moved m dst src 0 n j (ground (arith, up)) ∙ ap (λ k. moved m dst src 0 k j) count)
  | inr no_up ↦ elim (ℕ_discrete src dst) [
    | yes same ↦
        let equal : (src == dst) ≡ true = ground (arith, same) in
        rw (no_up, equal) (rw same (still dst))
    | no other ↦
        let down : (src == dst) ≡ false = ground arith in
        rw (no_up, down) (copy_down-moved m dst src n j (ground (arith, no_up)))
  ]
]
  where
    count : 0 + n ≡ n
    count = omega arith

    still : (k : ℕ) → m j ≡ moved m k k 0 n j
    still k = elim (Bool-cases (leb (k + 0) j && ltb j (k + n))) [
      | inl inside ↦ let place : k + (j - k) ≡ j = ground (arith, inside) in rw (inside, place) refl
      | inr outside ↦ rw outside refl
    ]
