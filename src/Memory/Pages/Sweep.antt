-- ===== src/Memory/Pages/Sweep.antt =====
-- `munmap_all_user` of kernel/memory.c: what the loop over all frames leaves behind.
use Prim.Native.Nat.{bit_and}
use ovsb_mk.Base.{
  ℕ, zero, suc, ◌+◌, ◌^◌, ◌≤◌, ◌<◌, ◌≡◌, ◌≢◌, ◌⊎◌, inl, inr, refl, true, false, arith, leb,
  Bool-cases,
}
use ovsb_mk.Memory.Words.{fields, low_mark, pow-pos}
use ovsb_mk.Memory.Types.{Memory, frame_to_addr}
use ovsb_mk.Memory.Buddy.{buddy_free}
use ovsb_mk.Memory.Buddy.Layout.{IsSound, IsTaken}
use ovsb_mk.Memory.Buddy.Free.{taken_block, buddy_free-merge, buddy_free-IsSound}
use ovsb_mk.Memory.Pages.{is_user_mark, sweep, munmap_all_user}
use ovsb_mk.Memory.Pages.Unmap.{mark_cases}

-- No user block is left, and the blocks of the kernel are those from before.
pub record Swept (m m' : Memory) : Type 0 where
  pub sound : IsSound m'
  pub no_user : (c : ℕ) → c < 16384 → m'.frames c < 192
  pub kept : (c : ℕ) → 128 ≤ m.frames c → m.frames c < 192 → m'.frames c ≡ m.frames c
  pub none_new : (c : ℕ) → 128 ≤ m'.frames c → m'.frames c ≡ m.frames c

-- A frame is the start of a user block, or has no user mark.
user_cases :
    (m : Memory) (i : ℕ)
    → IsSound m
    → i < 16384
    → ((o : ℕ) × (o ≤ 14)
        × (m.frames i ≡ 192 + o)
        × (is_user_mark (m.frames i) ≡ true)
        × (bit_and (m.frames i) 0x3F ≡ o))
      ⊎ ((m.frames i < 192) × (is_user_mark (m.frames i) ≡ false))
user_cases m i v lt = elim (mark_cases m v i lt) [
  | inl low ↦ inr (omega arith, (low_mark (m.frames i) low).1)
  | inr (o, le, inl e) ↦ inr (omega arith, rw e ((fields o le).kernel))
  | inr (o, le, inr e) ↦ inl (o, le, e, rw e ((fields o le).user), rw e ((fields o le).order_user))
]

-- The rest of a block has no mark of a taken block.
rest_quiet :
    (m : Memory) (v : IsSound m) (i o c : ℕ)
    → i < 16384
    → o ≤ 14
    → IsTaken (m.frames i) o
    → i < c
    → c < i + 2 ^ o
    → m.frames c < 128
rest_quiet m v i o c li le t lo hi =
    let (starts, sized) = taken_block m v.size v.base i o v.layout li le t in
    let upper : c < v.base i + 2 ^ v.size i = rw (starts, sized) hi in
    let same = v.layout.shared i c li (omega arith) upper in
    let inside = v.layout.inside i li in v.layout.quiet c (omega arith) (omega arith)

Swept-trans :
    (m n p : Memory) (b : ℕ)
    → 192 ≤ m.frames b
    → n.frames b < 128
    → ((c : ℕ) → c ≢ b → (128 ≤ m.frames c) ⊎ (128 ≤ n.frames c) → n.frames c ≡ m.frames c)
    → Swept n p
    → Swept m p
Swept-trans m n p b user gone others s = record {
  sound = s.sound;
  no_user = s.no_user;
  kept = λ c lo hi. ground (arith, others c, s.kept c);
  none_new = λ c lo. ground (arith, others c, s.none_new c);
}

-- The loop from the frame `i` on, when no user mark stands before it.
sweep-Swept :
    (m : Memory) (i n : ℕ)
    → IsSound m
    → ((c : ℕ) → c < i → m.frames c < 192)
    → 16384 ≤ i + n
    → Swept m (sweep m i n)
unfolding sweep
sweep-Swept m i zero v below fuel = record {
  sound = v;
  no_user = λ c lt. below c (omega arith);
  kept = λ c lo hi. refl;
  none_new = λ c lo. refl;
}
sweep-Swept m i (suc n) v below fuel = elim (Bool-cases (leb 16384 i)) [
  | inl past ↦ rw past (record {
    sound = v;
    no_user = λ c lt. below c (ground arith);
    kept = λ c lo hi. refl;
    none_new = λ c lo. refl;
  })
  | inr inside ↦
      let li : i < 16384 = ground arith in
      elim (user_cases m i v li) [
        | inr (low, test) ↦
            rw (inside, test)
              (sweep-Swept m (i + 1) n v (λ c lt. ground (arith, below c)) (omega arith))
        | inl (o, le, e, test, order) ↦
            let (sound, gone, others) = buddy_free-IsSound m i o v li le (inr e) in
            let rest =
              sweep-Swept (buddy_free m (frame_to_addr i) o) (i + 2 ^ o) n sound
                (λ c lt. ground (arith, below c, others c, rest_quiet m v i o c li le (inr e)))
                (omega (arith, pow-pos o)) in
            let whole = Swept-trans m _ _ i (omega arith) gone others rest in
            rw (inside, test, order) (rw (buddy_free-merge m i o li le) at whole)
      ]
]

-- On a sound heap `munmap_all_user` frees every user block and no block of the kernel: the heap is
-- sound, no frame has a user mark, each kernel block keeps its mark, and no frame gets a new one.
pub munmap_all_user-Swept : (m : Memory) → IsSound m → Swept m (munmap_all_user m)
unfolding munmap_all_user
munmap_all_user-Swept m v = sweep-Swept m 0 16384 v (λ c lt. absurd (omega arith)) (omega arith)
