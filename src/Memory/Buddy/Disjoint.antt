-- ===== src/Memory/Buddy/Disjoint.antt =====
-- Blocks that `buddy_alloc` of kernel/memory.c hands out do not overlap.
use ovsb_mk.Base.{
  ℕ, ◌+◌, ◌^◌, ◌≤◌, ◌<◌, ◌≡◌, ◌≢◌, sym, ◌⊎◌, inl, inr, Bool, true, false, some, arith,
  if◌then◌else◌,
}
use ovsb_mk.Memory.Types.{Memory, frame_to_addr}
use ovsb_mk.Memory.Words.{pow-pos}
use ovsb_mk.Memory.Buddy.{buddy_alloc}
use ovsb_mk.Memory.Buddy.Layout.{IsSound, IsTaken}
use ovsb_mk.Memory.Buddy.Free.{taken_block}
use ovsb_mk.Memory.Buddy.Result.{Allocated, buddy_alloc-Allocated}

-- A taken block that begins inside a taken block is that block.
same_block :
    (m : Memory) (b o c p : ℕ)
    → IsSound m
    → b < 16384
    → o ≤ 14
    → IsTaken (m.frames b) o
    → c < 16384
    → p ≤ 14
    → IsTaken (m.frames c) p
    → b ≤ c
    → c < b + 2 ^ o
    → b ≡ c
same_block m b o c p v lb lo tb lc lp tc from to =
    let (starts, sized) = taken_block m v.size v.base b o v.layout lb lo tb in
    let (starts', sized') = taken_block m v.size v.base c p v.layout lc lp tc in
    let upper : c < v.base b + 2 ^ v.size b = rw (starts, sized) to in
    let same = v.layout.shared b c lb (omega arith) upper in omega arith

taken_disjoint :
    (m : Memory) (b o c p : ℕ)
    → IsSound m
    → b < 16384
    → o ≤ 14
    → IsTaken (m.frames b) o
    → c < 16384
    → p ≤ 14
    → IsTaken (m.frames c) p
    → b ≢ c
    → (b + 2 ^ o ≤ c) ⊎ (c + 2 ^ p ≤ b)
taken_disjoint m b o c p v lb lo tb lc lp tc ne =
    ground
      (arith, same_block m b o c p v lb lo tb lc lp tc, same_block m c p b o v lc lp tc lb lo tb)

-- The mark that `buddy_alloc` leaves is that of a taken block.
mark-IsTaken :
    (x order : ℕ) (user : Bool) → x ≡ (if user then 192 + order else 128 + order) → IsTaken x order
mark-IsTaken x order true e = inr e
mark-IsTaken x order false e = inl e

-- The block that `buddy_alloc` of an order up to 14 hands out on a sound heap shares no frame with
-- any block that was taken before the call.
pub buddy_alloc-disjoint :
    (m m' : Memory) (order : ℕ) (user : Bool) (b c p : ℕ)
    → IsSound m
    → order ≤ 14
    → buddy_alloc m order user ≡ (some (frame_to_addr b), m')
    → c < 16384
    → p ≤ 14
    → IsTaken (m.frames c) p
    → (b + 2 ^ order ≤ c) ⊎ (c + 2 ^ p ≤ b)
buddy_alloc-disjoint m m' order user b c p v le e lc lp t =
    elim (buddy_alloc-Allocated m order user v le) [
      | inr (full, all) ↦ absurd (ground (arith, e, full))
      | inl (d, place, a) ↦
          let same : b ≡ d = ground (arith, e, place) in
          let a' : Allocated m m' order user b = rw (e, sym same) at a in
          let lt : b < 16384 = omega (arith, a'.fits, pow-pos order) in
          let ne : b ≢ c = λ q. ground (arith, a'.was_free, t, q) in
          let kept : m'.frames c ≡ m.frames c = a'.others c (ground arith) (ground (arith, t)) in
          taken_disjoint m' b order c p a'.sound lt le (mark-IsTaken _ order user a'.mark) lc lp
            (rw kept t) ne
    ]
