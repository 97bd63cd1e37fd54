-- ===== src/Memory/Slabs/Carve.antt =====
-- The second loop of `slab_alloc` of kernel/memory.c: the objects of a new slab.
use ovsb_mk.Base.{
  ℕ, zero, suc, ◌+◌, ◌≤◌, ◌<◌, ◌≡◌, ◌≢◌, ◌∙◌, ℕ_discrete, ap, List, [], ◌∷◌, refl, sym, Bool, true,
  false, arith, ◌==◌, leb, Bool-cases, inl, inr, ==_iff,
}
use ovsb_mk.Memory.Types.{count, frame_to_addr}
use ovsb_mk.Memory.Slabs.{carve, objects, header_size, obj_size, obj_per_slab}
use ovsb_mk.Memory.Slabs.Slots.{
  object_at, object_at-injective, cache_Sizes, object_within, tally, tally-once,
}
use ovsb_mk.Memory.Slabs.Layout.{IsSlab}

-- How many of the first `n` objects have the address `x`.
abbrev pub hits : (c page n x : ℕ) → ℕ
hits c page n x = tally (λ k. x == object_at c page k) n

-- With more rounds than objects left, the list ends up with each object of the page.
count-carve :
    (c page d j n x : ℕ) (head : List ℕ)
    → c < 8
    → j + d ≡ obj_per_slab c
    → d < n
    → count x head ≡ hits c page j x
    → count x (carve (obj_size c) (object_at c page j) (frame_to_addr page + 4096) n head)
      ≡ hits c page (obj_per_slab c) x
unfolding carve tally
count-carve c page d j zero x head lt e more h = absurd (omega arith)
count-carve c page zero j (suc n) x head lt e more h =
    let z = cache_Sizes c lt in
    let all : j ≡ obj_per_slab c = omega arith in
    let end : leb (object_at c page j + obj_size c) (frame_to_addr page + 4096) ≡ false =
      rw all (ground (arith, z.full)) in
    rw end (h ∙ ap (λ m. hits c page m x) all)
count-carve c page (suc d) j (suc n) x head lt e more h =
    let w = object_within c j lt (omega arith) in
    let fits : leb (object_at c page j + obj_size c) (frame_to_addr page + 4096) ≡ true =
      ground (arith, w) in
    let next : object_at c page j + obj_size c ≡ object_at c page (suc j) = omega arith in
    rw (fits, next)
      (count-carve c page d (suc j) n x (object_at c page j ∷ head) lt (omega arith) (omega arith)
        (ground (arith, h)))

none_pass : (n : ℕ) → tally (λ k. false) n ≡ 0
unfolding tally
none_pass zero = refl
none_pass (suc n) = omega (arith, none_pass n)

tally-one :
    (test : ℕ → Bool) (n k : ℕ)
    → k < n
    → test k ≡ true
    → ((j : ℕ) → j < n → j ≢ k → test j ≡ false)
    → tally test n ≡ 1
tally-one test n k lt hit miss =
    tally-once test (λ j. false) n k lt hit refl miss ∙ ap suc (none_pass n)

tally-found : (test : ℕ → Bool) (n : ℕ) → 1 ≤ tally test n → (k : ℕ) × (k < n) × (test k ≡ true)
unfolding tally
tally-found test zero h = absurd (omega arith)
tally-found test (suc n) h = elim (Bool-cases (test n)) [
  | inl hit ↦ (n, omega arith, hit)
  | inr miss ↦
      let (k, lt, hit) = tally-found test n (ground (arith, h, miss)) in (k, omega arith, hit)
]

count-objects : (c page x : ℕ) → c < 8 → count x (objects c page) ≡ hits c page (obj_per_slab c) x
count-objects c page x lt =
    let z = cache_Sizes c lt in
    let start : frame_to_addr page + header_size ≡ object_at c page 0 = omega arith in
    ap (λ a. count x (carve (obj_size c) a (frame_to_addr page + 4096) 254 [])) start
    ∙ count-carve c page (obj_per_slab c) 0 254 x [] lt (omega arith) (omega (arith, z.few))
        (sym (nothing c page x))
  where
    nothing : (c page x : ℕ) → hits c page 0 x ≡ 0
    nothing c page x = unfold tally in refl

-- The objects of a new page, as a list: each once, and nothing else.
pub record Carved (c page : ℕ) (xs : List ℕ) : Type 0 where
  pub each : (k : ℕ) → k < obj_per_slab c → count (object_at c page k) xs ≡ 1
  pub only : (x : ℕ) → 1 ≤ count x xs → (k : ℕ) × (k < obj_per_slab c) × (x ≡ object_at c page k)

pub objects-Carved : (c page : ℕ) → c < 8 → Carved c page (objects c page)
objects-Carved c page lt = record {
  each = λ k below.
      count-objects c page (object_at c page k) lt
      ∙ tally-one (λ j. object_at c page k == object_at c page j) (obj_per_slab c) k below
          (ground arith)
          (λ j under ne.
            let other : object_at c page j ≢ object_at c page k =
              λ q. ne (object_at-injective c page j k lt q) in
            ground (arith, other));
  only = λ x some_hit.
      let (k, below, hit) =
        tally-found (λ j. x == object_at c page j) (obj_per_slab c)
          (rw (← count-objects c page x lt) some_hit) in
      (k, below, (==_iff _ _).0 hit);
}

-- A page with no objects does not occur.
pub Carved-ne-nil : (c page : ℕ) → c < 8 → ¬ Carved c page []
Carved-ne-nil c page lt v =
    let z = cache_Sizes c lt in
    let one : count (object_at c page 0) [] ≡ 1 = v.each 0 (omega (arith, z.any)) in
    absurd (omega (arith, one))

-- The slab of a new page once its first object has been given out.
pub Carved-IsSlab :
    (c page total o : ℕ) (os : List ℕ)
    → c < 8
    → Carved c page (o ∷ os)
    → IsSlab page (record { in_use = 1; total = total; freelist = os; cache = c })
Carved-IsSlab c page total o os lt v =
    let (k, below, e) = v.only o (ground arith) in
    let head : count o (o ∷ os) ≡ 1 = ap (λ a. count a (o ∷ os)) e ∙ v.each k below in
    record {
      cache = lt;
      counted = sym (
          tally-one (λ j. count (object_at c page j) os == 0) (obj_per_slab c) k below
            (rw (← e) (ground (arith, head)))
            (λ j under ne.
              let other : object_at c page j ≢ o =
                λ q. ne (object_at-injective c page j k lt (q ∙ e)) in
              ground (arith, v.each j under, other)));
      used = omega arith;
      listed = λ x g. v.only x (ground (arith, g));
      once = λ x. elim (ℕ_discrete (count x os) 0) [
        | yes clear ↦ omega arith
        | no ne ↦
            let (j, under, q) = v.only x (ground (arith, ne)) in
            rw q (ground (arith, v.each j under))
      ];
    }
