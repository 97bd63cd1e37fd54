-- ===== src/Memory/Slabs/Slots.antt =====
-- The objects of a slab of kernel/memory.c: their addresses, and how many of them are in use.
use ovsb_mk.Base.{
  ℕ, zero, suc, ◌+◌, ◌*◌, ◌≤◌, ◌<◌, ◌≡◌, ◌≢◌, ℕ_discrete, Bool, true, false, ◌&&◌, arith, ◌==◌, ltb,
  leb, if◌then◌else◌, all_below, all_below_sound, refl,
}
use ovsb_mk.Memory.Words.{mul_le, le_of_mul}
use ovsb_mk.Memory.Types.{frame_to_addr, addr_to_frame}
use ovsb_mk.Memory.Slabs.{header_size, obj_size, obj_per_slab}

-- The address of the object `k` of the slab at `page`.
abbrev pub object_at : (cache page k : ℕ) → ℕ
object_at cache page k = frame_to_addr page + header_size + k * obj_size cache

abbrev size_test : ℕ → Bool
size_test c =
    leb 16 (obj_size c)
    && leb 1 (obj_per_slab c)
    && leb (obj_per_slab c) 253
    && leb (obj_per_slab c * obj_size c) 4048
    && ltb 4048 (obj_per_slab c * obj_size c + obj_size c)

size_table : all_below 8 size_test ≡ true
unfolding all_below
size_table = refl

-- The objects of a cache fill a page behind the header.
pub record Sizes (size n : ℕ) : Type 0 where
  pub least : 16 ≤ size
  pub any : 1 ≤ n
  pub few : n ≤ 253
  pub fit : n * size ≤ 4048
  pub full : 4048 < n * size + size

pub cache_Sizes : (c : ℕ) → c < 8 → Sizes (obj_size c) (obj_per_slab c)
cache_Sizes c lt =
    let t : size_test c ≡ true = all_below_sound 8 size_test c size_table lt in
    record {
      least = ground (arith, t);
      any = ground (arith, t);
      few = ground (arith, t);
      fit = ground (arith, t);
      full = ground (arith, t);
    }

-- An object ends within its page.
pub object_within : (c k : ℕ) → c < 8 → k < obj_per_slab c → k * obj_size c + obj_size c ≤ 4048
object_within c k lt le =
    let z = cache_Sizes c lt in
    omega (arith, mul_le (obj_size c) (suc k) (obj_per_slab c) (omega arith), z.fit)

-- The page of an object is that of its slab.
pub object_page :
    (c page k : ℕ)
    → c < 8
    → page < 16384
    → k < obj_per_slab c
    → addr_to_frame (object_at c page k) ≡ page
object_page c page k lt inside le =
    let z = cache_Sizes c lt in let w = object_within c k lt le in omega (arith, z.least, w)

-- Different objects have different addresses.
pub object_at-injective : (c page j k : ℕ) → c < 8 → object_at c page j ≡ object_at c page k → j ≡ k
object_at-injective c page j k lt e =
    let z = cache_Sizes c lt in
    let pos : 0 < obj_size c = omega (arith, z.least) in
    let a = le_of_mul (obj_size c) j k pos (omega (arith, e)) in
    let b = le_of_mul (obj_size c) k j pos (omega (arith, e)) in omega arith

-- How many of the numbers below `n` pass a test.
unfoldable pub tally : (ℕ → Bool) → ℕ → ℕ
tally test zero = 0
tally test (suc n) = tally test n + (if test n then 1 else 0)

pub tally-le : (test : ℕ → Bool) (n : ℕ) → tally test n ≤ n
unfolding tally
tally-le test zero = omega arith
tally-le test (suc n) = ground (arith, tally-le test n)

pub tally-zero : (test : ℕ → Bool) (n k : ℕ) → tally test n ≡ 0 → k < n → test k ≡ false
unfolding tally
tally-zero test zero k e lt = absurd (omega arith)
tally-zero test (suc n) k e lt = elim (ℕ_discrete k n) [
  | yes same ↦ rw same (ground (arith, e))
  | no ne ↦ tally-zero test n k (ground (arith, e)) (omega arith)
]

tally-same : (f g : ℕ → Bool) (n : ℕ) → ((j : ℕ) → j < n → f j ≡ g j) → tally f n ≡ tally g n
unfolding tally
tally-same f g zero e = refl
tally-same f g (suc n) e = ground (arith, e n, tally-same f g n (λ j lt. e j (omega arith)))

-- Two tests that differ at one place.
pub tally-once :
    (f g : ℕ → Bool) (n k : ℕ)
    → k < n
    → f k ≡ true
    → g k ≡ false
    → ((j : ℕ) → j < n → j ≢ k → f j ≡ g j)
    → tally f n ≡ suc (tally g n)
unfolding tally
tally-once f g zero k lt a b e = absurd (omega arith)
tally-once f g (suc n) k lt a b e = elim (ℕ_discrete k n) [
  | yes same ↦
      let rest = tally-same f g n (λ j below. e j (omega arith) (omega arith)) in
      let fn : f n ≡ true = rw same at a in
      let gn : g n ≡ false = rw same at b in ground (arith, rest, fn, gn)
  | no ne ↦
      let rest = tally-once f g n k (omega arith) a b (λ j below other. e j (omega arith) other) in
      ground (arith, rest, e n)
]

-- Where exactly one number passes, no other one does.
pub tally-only :
    (f : ℕ → Bool) (n k j : ℕ) → tally f n ≡ 1 → k < n → f k ≡ true → j < n → j ≢ k → f j ≡ false
tally-only f n k j one lt hit below ne =
    let rest =
      tally-once f (λ i. if i == k then false else f i) n k lt hit (ground arith)
        (λ i under other. ground (arith, other)) in
    let clear = tally-zero (λ i. if i == k then false else f i) n j (omega (arith, rest)) below in
    ground (arith, clear, ne)
