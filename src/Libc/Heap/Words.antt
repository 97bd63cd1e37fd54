-- ===== src/Libc/Heap/Words.antt =====
-- A word of the memory after another one has been stored.
use native.Mathlib.Nat.{pow-suc}
use ovsb_mk.Base.{ℕ, zero, suc, ◌+◌, ◌/◌, ◌%◌, ◌^◌, ◌≤◌, ◌<◌, ◌≡◌, ◌∙◌, refl, arith, ◌⊎◌, inl, inr}
use ovsb_mk.Memory.Types.{update}
use ovsb_mk.Memory.Tables.{Bytes, load, save, load64, save64}

load-update : (b : Bytes) (at c a n : ℕ) → at < a → load (update b at c) a n ≡ load b a n
unfolding load
load-update b at c a zero lt = refl
load-update b at c a (suc n) lt =
    let other : update b at c a ≡ b a = ground (arith, lt) in
    let rest = load-update b at c (a + 1) n (omega (arith, lt)) in rw (other, rest) refl

-- The bytes of a number that fits into them.
load-save : (b : Bytes) (at n v : ℕ) → v < 256 ^ n → load (save b at n v) at n ≡ v
unfolding load save
load-save b at zero v lt = omega (arith, lt)
load-save b at (suc n) v lt =
    let here : update (save b (at + 1) n (v / 256)) at (v % 256) at ≡ v % 256 = ground arith in
    let smaller : v / 256 < 256 ^ n = omega (arith, lt, pow-suc 256 n) in
    let rest =
      load-update (save b (at + 1) n (v / 256)) at (v % 256) (at + 1) n (omega arith)
      ∙ load-save b (at + 1) n (v / 256) smaller in
    rw (here, rest) omega arith

pub load64-save64 : (b : Bytes) (at v : ℕ) → v < 2 ^ 64 → load64 (save64 b at v) at ≡ v
load64-save64 b at v lt = load-save b at 8 v lt

save-apart : (b : Bytes) (at k v j : ℕ) → (j < at) ⊎ (at + k ≤ j) → save b at k v j ≡ b j
unfolding save
save-apart b at zero v j apart = refl
save-apart b at (suc k) v j apart =
    let other : update (save b (at + 1) k (v / 256)) at (v % 256) j
        ≡ save b (at + 1) k (v / 256) j =
      differs apart in
    other ∙ save-apart b (at + 1) k (v / 256) j (beyond apart)
  where
    differs :
        (j < at) ⊎ (at + suc k ≤ j)
        → update (save b (at + 1) k (v / 256)) at (v % 256) j ≡ save b (at + 1) k (v / 256) j
    differs (inl p) = ground (arith, p)
    differs (inr p) = ground (arith, p)

    beyond : (j < at) ⊎ (at + suc k ≤ j) → (j < at + 1) ⊎ (at + 1 + k ≤ j)
    beyond (inl p) = inl (omega (arith, p))
    beyond (inr p) = inr (omega (arith, p))

load-save-apart :
    (b : Bytes) (at k v a n : ℕ)
    → (a + n ≤ at) ⊎ (at + k ≤ a)
    → load (save b at k v) a n ≡ load b a n
unfolding load
load-save-apart b at k v a zero apart = refl
load-save-apart b at k v a (suc n) apart =
    let rest = load-save-apart b at k v (a + 1) n (beyond apart) in
    rw (save-apart b at k v a (first apart), rest) refl
  where
    beyond : (a + suc n ≤ at) ⊎ (at + k ≤ a) → (a + 1 + n ≤ at) ⊎ (at + k ≤ a + 1)
    beyond (inl p) = inl (omega (arith, p))
    beyond (inr p) = inr (omega (arith, p))

    first : (a + suc n ≤ at) ⊎ (at + k ≤ a) → (a < at) ⊎ (at + k ≤ a)
    first (inl p) = inl (omega (arith, p))
    first (inr p) = inr p

pub load64-save64-apart :
    (b : Bytes) (at v a : ℕ) → (a + 8 ≤ at) ⊎ (at + 8 ≤ a) → load64 (save64 b at v) a ≡ load64 b a
load64-save64-apart b at v a apart = load-save-apart b at 8 v a 8 apart

-- A word depends on its eight bytes only.
load-same :
    (b c : Bytes) (a n : ℕ) → ((j : ℕ) → a ≤ j → j < a + n → b j ≡ c j) → load b a n ≡ load c a n
unfolding load
load-same b c a zero same = refl
load-same b c a (suc n) same =
    let here = same a (omega arith) (omega arith) in
    let rest =
      load-same b c (a + 1) n (λ j ge lt. same j (omega (arith, ge)) (omega (arith, lt))) in
    rw (here, rest) refl

pub load64-same :
    (b c : Bytes) (a : ℕ) → ((j : ℕ) → a ≤ j → j < a + 8 → b j ≡ c j) → load64 b a ≡ load64 c a
load64-same b c a same = load-same b c a 8 same
