-- ===== src/Memory/Pages/Unmap.antt =====
-- `munmap_user` of kernel/memory.c on any address, and after `mmap_user`.
use Prim.Native.Nat.{bit_and}
use ovsb_mk.Base.{
  ℕ, ◌%◌, ◌^◌, ◌≤◌, ◌<◌, ◌≡◌, ◌≢◌, ℕ_discrete, ◌⊎◌, inl, inr, refl, ap, Bool, true, false, none,
  some, arith, ◌==◌, ltb, if◌then◌else◌, Bool-cases, pos,
}
use ovsb_mk.Memory.Words.{fields, low_mark, pow-pos, offset_in_frame, frame_aligned}
use ovsb_mk.Memory.Types.{Memory, frame_to_addr, addr_to_frame}
use ovsb_mk.Memory.Buddy.{buddy_free, buddy_alloc}
use ovsb_mk.Memory.Buddy.Layout.{IsSound, IsTaken}
use ovsb_mk.Memory.Buddy.Free.{SameTaken, buddy_free-IsSound}
use ovsb_mk.Memory.Buddy.Result.{Allocated, buddy_alloc-Allocated}
use ovsb_mk.Memory.Pages.{munmap_user, mmap_user, page_count, order_of}

-- A frame has the mark of a taken block, or a mark below 128.
pub mark_cases :
    (m : Memory)
    → IsSound m
    → (c : ℕ) → c < 16384
    → (m.frames c < 128) ⊎ ((o : ℕ) × (o ≤ 14) × IsTaken (m.frames c) o)
mark_cases m v c lt = elim (ℕ_discrete (v.base c) c) [
  | no ne ↦ inl (v.layout.quiet c lt ne)
  | yes e ↦
      let le = v.layout.order c lt in
      let head = v.layout.marked c lt (omega (arith, v.layout.covers c lt)) in
      elim head [
        | inl (f, listed) ↦ inl (ground (arith, f, e))
        | inr t ↦ inr (v.size c, le, ground (arith, t, e))
      ]
]

-- The mark of a taken block has FRAME_ALLOC, and its order.
taken_fields :
    (x o : ℕ) → o ≤ 14 → IsTaken x o → ((bit_and x 0x80 == 0) ≡ false) × (bit_and x 0x3F ≡ o)
taken_fields x o le (inl e) = let f = fields o le in rw e (f.taken, f.order)
taken_fields x o le (inr e) = let f = fields o le in rw e (f.taken_user, f.order_user)

-- At the address of a taken block `munmap_user` frees it, with its order.
pub munmap_user-taken :
    (m : Memory) (b o length : ℕ)
    → b < 16384
    → o ≤ 14
    → IsTaken (m.frames b) o
    → munmap_user m (frame_to_addr b) length ≡ (pos 0, buddy_free m (frame_to_addr b) o)
unfolding munmap_user
munmap_user-taken m b o length lt le t =
    let back : addr_to_frame (frame_to_addr b) ≡ b = omega arith in
    let (taken, order) = taken_fields (m.frames b) o le t in
    ground (arith, frame_aligned b, back, taken, order)

-- The index of an address inside the heap, at the start of a frame.
heap_address :
    (addr : ℕ)
    → addr < 2 ^ 64
    → addr % 4096 ≡ 0
    → addr_to_frame addr < 16384
    → addr ≡ frame_to_addr (addr_to_frame addr)
heap_address addr h e lt = omega arith

-- A frame that is not taken has no FRAME_ALLOC.
munmap_user-free :
    (m : Memory) (b length : ℕ)
    → b < 16384
    → m.frames b < 128
    → munmap_user m (frame_to_addr b) length ≡ (pos 0, m)
unfolding munmap_user
munmap_user-free m b length lt low =
    let back : addr_to_frame (frame_to_addr b) ≡ b = omega arith in
    let (clear, user) = low_mark (m.frames b) low in ground (arith, frame_aligned b, back, clear)

-- An address outside the heap, or inside a frame, is left alone.
munmap_user-outside :
    (m : Memory) (addr length : ℕ)
    → (addr % 4096 ≢ 0) ⊎ (16384 ≤ addr_to_frame addr)
    → (munmap_user m addr length).1 ≡ m
unfolding munmap_user
munmap_user-outside m addr length out = ground (arith, offset_in_frame addr, out)

-- The frame that an address names.
address_cases :
    (addr : ℕ)
    → addr < 2 ^ 64
    → ((addr % 4096 ≢ 0) ⊎ (16384 ≤ addr_to_frame addr))
      ⊎ ((b : ℕ) × (b < 16384) × (addr ≡ frame_to_addr b))
address_cases addr h = elim (Bool-cases (addr % 4096 == 0)) [
  | inr miss ↦ inl (inl (λ e. ground arith))
  | inl hit ↦ elim (Bool-cases (ltb (addr_to_frame addr) 16384)) [
    | inl lt ↦
        inr (addr_to_frame addr, ground arith, heap_address addr h (ground arith) (ground arith))
    | inr ge ↦ inl (inr (ground arith))
  ]
]

-- `munmap_user` of any 64-bit address leaves a sound heap as it was, or the address is that of a
-- taken block, which is freed while the heap stays sound and every other taken block keeps its
-- mark.
pub munmap_user-IsSound :
    (m : Memory) (addr length : ℕ)
    → IsSound m
    → addr < 2 ^ 64
    → ((munmap_user m addr length).1 ≡ m)
      ⊎ ((b o : ℕ) × (addr ≡ frame_to_addr b)
          × IsTaken (m.frames b) o
          × IsSound (munmap_user m addr length).1
          × ((munmap_user m addr length).1.frames b < 128)
          × ((c : ℕ)
              → c ≢ b
              → (128 ≤ m.frames c) ⊎ (128 ≤ (munmap_user m addr length).1.frames c)
              → (munmap_user m addr length).1.frames c ≡ m.frames c))
munmap_user-IsSound m addr length v h = elim (address_cases addr h) [
  | inl out ↦ inl (munmap_user-outside m addr length out)
  | inr (b, lt, e) ↦ elim (mark_cases m v b lt) [
    | inl low ↦ inl (rw e (ap (λ r. r.1) (munmap_user-free m b length lt low)))
    | inr (o, le, t) ↦
        let (sound, gone, others) = buddy_free-IsSound m b o v lt le t in
        let q : (munmap_user m addr length).1 ≡ buddy_free m (frame_to_addr b) o =
          rw (e, munmap_user-taken m b o length lt le t) in
        inr (b, o, e, t, rw q sound, rw q gone, rw q others)
  ]
]

-- An order above 14 has no block.
pub buddy_alloc-big :
    (m : Memory) (order : ℕ) (user : Bool) → 14 < order → buddy_alloc m order user ≡ (none, m)
unfolding buddy_alloc
buddy_alloc-big m order user lt = ground arith

-- Freeing what was just handed out.
free-Allocated :
    (m m' : Memory) (order b length : ℕ)
    → order ≤ 14
    → Allocated m m' order true b
    → ((munmap_user m' (frame_to_addr b) length).0 ≡ pos 0)
      × IsSound (munmap_user m' (frame_to_addr b) length).1
      × SameTaken m (munmap_user m' (frame_to_addr b) length).1
free-Allocated m m' order b length le a =
    let lt : b < 16384 = omega (arith, a.fits, pow-pos order) in
    let t : IsTaken (m'.frames b) order = inr a.mark in
    let (sound, gone, others) = buddy_free-IsSound m' b order a.sound lt le t in
    rw (munmap_user-taken m' b order length lt le t) (
      refl,
      sound,
      record {
        kept = λ c h. ground (arith, a.was_free, a.others c, others c);
        none_new = λ c h. ground (arith, a.others c, others c);
      },
    )

alloc-free :
    (m m' : Memory) (addr order length : ℕ)
    → IsSound m
    → buddy_alloc m order true ≡ (some addr, m')
    → ((munmap_user m' addr length).0 ≡ pos 0)
      × IsSound (munmap_user m' addr length).1
      × SameTaken m (munmap_user m' addr length).1
alloc-free m m' addr order length v e = elim (Bool-cases (ltb 14 order)) [
  | inl big ↦
      let none_left : buddy_alloc m order true ≡ (none, m) =
        buddy_alloc-big m order true (ground arith) in
      absurd (ground (arith, e, none_left))
  | inr small ↦
      let le : order ≤ 14 = ground arith in
      elim (buddy_alloc-Allocated m order true v le) [
        | inr (none_left, all) ↦ absurd (ground (arith, e, none_left))
        | inl (b, place, a) ↦
            let same : addr ≡ frame_to_addr b = ground (arith, e, place) in
            let a' : Allocated m m' order true b = rw e at a in
            rw same (free-Allocated m m' order b length le a')
      ]
]

-- What `mmap_user` hands out on a sound heap, `munmap_user` takes back, whatever length it is
-- given: it returns 0, the heap is sound, and the taken blocks are those from before, with their
-- marks.
pub mmap_user-munmap_user :
    (m m' : Memory) (addr length length' : ℕ)
    → IsSound m
    → mmap_user m length ≡ (some addr, m')
    → ((munmap_user m' addr length').0 ≡ pos 0)
      × IsSound (munmap_user m' addr length').1
      × SameTaken m (munmap_user m' addr length').1
unfolding mmap_user
mmap_user-munmap_user m m' addr length length' v e =
    alloc-free m m' addr (order_of (if page_count length == 0 then 1 else page_count length))
      length' v e
