-- ===== src/Fat/Entry/Fields.antt =====
-- The fields of a directory entry of fs/fat32.c after they have been written.
use ovsb_mk.Base.{
  ℕ, zero, suc, ◌+◌, ◌*◌, ◌^◌, ◌≤◌, ◌<◌, ◌≡◌, ◌⊎◌, ◌∙◌, ap, sym, inl, refl, List, [], ◌∷◌, true,
  arith, length,
}
use ovsb_mk.Fat.Types.{Bytes, write_byte, bytes_from, put_bytes}
use ovsb_mk.Fat.Entry.{
  entry_at, entry_name, entry_attr, first_cluster_of, same_name, set_cluster, set_size, set_name,
  fill_entry,
}

-- Bytes outside those that a list is put over.
pub put_bytes_away :
    (xs : List ℕ) (b : Bytes) (i j : ℕ) → (j < i) ⊎ (i + length xs ≤ j) → put_bytes b i xs j ≡ b j
put_bytes_away [] b i j h = refl
put_bytes_away (x ∷ xs) b i j h =
    put_bytes_away xs (write_byte b i x) (i + 1) j (ground arith) ∙ ground arith

-- A list that has been put is read back.
pub bytes_from-put_bytes :
    (xs : List ℕ) (b : Bytes) (i : ℕ) → bytes_from (put_bytes b i xs) i (length xs) ≡ xs
bytes_from-put_bytes [] b i = refl
bytes_from-put_bytes (x ∷ xs) b i =
    let head : put_bytes (write_byte b i x) (i + 1) xs i ≡ x =
      put_bytes_away xs (write_byte b i x) (i + 1) i (inl (omega arith)) ∙ ground arith in
    rw (head, bytes_from-put_bytes xs (write_byte b i x) (i + 1)) refl

-- Two sectors that agree on a range.
pub bytes_from-cong :
    (n : ℕ) (b b' : Bytes) (i : ℕ)
    → ((j : ℕ) → i ≤ j → j < i + n → b j ≡ b' j)
    → bytes_from b i n ≡ bytes_from b' i n
bytes_from-cong zero b b' i same = refl
bytes_from-cong (suc n) b b' i same =
    rw
      (
        same i (omega arith) (omega arith),
        bytes_from-cong n b b' (i + 1) (λ j lo hi. same j (omega arith) (omega arith)),
      )
      refl

-- The cluster of an entry is read back as it was set.
pub first_cluster_of-set_cluster :
    (b : Bytes) (i cluster : ℕ)
    → cluster < 2 ^ 32
    → first_cluster_of (entry_at (set_cluster b i cluster) i) ≡ cluster
unfolding first_cluster_of entry_at set_cluster
first_cluster_of-set_cluster b i cluster lt = ground arith

-- The bytes behind the name, the attributes, the cluster and the size.
tail_kept :
    (b : Bytes) (i attr j : ℕ)
    → 32 * i ≤ j
    → j < 32 * i + 11
    → set_cluster (set_size (write_byte b (32 * i + 11) attr) i 0) i 0 j ≡ b j
unfolding set_cluster set_size
tail_kept b i attr j lo hi = ground arith

-- A new entry has the name, the attributes, no cluster and the size 0.
pub fill_entry-entry_at :
    (b : Bytes) (i : ℕ) (name : List ℕ) (attr : ℕ)
    → length name ≡ 11
    → (entry_name (fill_entry b i name attr) i ≡ name)
      × (entry_attr (fill_entry b i name attr) i ≡ attr)
      × (first_cluster_of (entry_at (fill_entry b i name attr) i) ≡ 0)
      × ((entry_at (fill_entry b i name attr) i).size ≡ 0)
unfolding fill_entry set_name set_size set_cluster entry_at first_cluster_of
fill_entry-entry_at b i name attr full = (
  bytes_from-cong 11 _ (put_bytes b (32 * i) name) (32 * i)
        (λ j lo hi. tail_kept (put_bytes b (32 * i) name) i attr j lo hi)
      ∙ ap (bytes_from (put_bytes b (32 * i) name) (32 * i)) (sym full)
      ∙ bytes_from-put_bytes name b (32 * i),
  ground arith,
  ground arith,
  ground arith,
)

-- The entries before it are kept.
pub fill_entry-before :
    (b : Bytes) (i : ℕ) (name : List ℕ) (attr j : ℕ)
    → length name ≡ 11
    → j < 32 * i
    → fill_entry b i name attr j ≡ b j
unfolding fill_entry set_name set_size set_cluster
fill_entry-before b i name attr j full lt =
    let name_kept = put_bytes_away name b (32 * i) j (inl lt) in ground (arith, name_kept)

pub same_name_self : (xs : List ℕ) → same_name xs xs ≡ true
unfolding same_name
same_name_self [] = refl
same_name_self (x ∷ xs) = ground (arith, same_name_self xs)
