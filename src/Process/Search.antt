-- ===== src/Process/Search.antt =====
-- What the searches of kernel/process.c through `pcb_table` find.
use ovsb_mk.Base.{
  ℕ, zero, suc, ◌<◌, ◌≡◌, ◌⊎◌, inl, inr, refl, ap, List, [], ◌∷◌, Bool, true, false, none, some,
  arith, length, Bool-cases,
}
use ovsb_mk.Process.Types.{Pcb, pcb_at, find_index}

module _ (test : Pcb → Bool) where
  -- `i` is the index of the first entry that passes the test.
  pub record Finds (t : List Pcb) (i : ℕ) : Type 0 where
    pub within : i < length t
    pub hit : test (pcb_at t i) ≡ true
    pub first : (m : ℕ) → m < i → test (pcb_at t m) ≡ false

  -- An entry passes, and the search gives the first, or none does.
  pub find_index-cases :
      (t : List Pcb)
      → ((i : ℕ) × (find_index test t ≡ some i) × Finds t i)
        ⊎ ((find_index test t ≡ none) × ((m : ℕ) → m < length t → test (pcb_at t m) ≡ false))
  unfolding find_index
  find_index-cases [] = inr (refl, λ m h. absurd (omega arith))
  find_index-cases (p ∷ ps) = elim (Bool-cases (test p)) [
    | inl hit ↦
        inl (
          0,
          rw hit,
          record { within = omega arith; hit = hit; first = λ m h. absurd (omega arith) },
        )
    | inr miss ↦ elim (find_index-cases ps) [
      | inl (i, e, f) ↦ inl (
        suc i,
        rw (miss, e),
        record {
          within = omega (arith, f.within);
          hit = f.hit;
          first = λ m h. below m h miss f.first;
        },
      )
      | inr (e, no_hit) ↦ inr (rw (miss, e), λ m h. beyond m h miss no_hit)
    ]
  ]
    where
      below :
          {i : ℕ} (m : ℕ)
          → m < suc i
          → test p ≡ false
          → ((k : ℕ) → k < i → test (pcb_at ps k) ≡ false)
          → test (pcb_at (p ∷ ps) m) ≡ false
      below zero h miss f = miss
      below (suc m) h miss f = f m (omega arith)

      beyond :
          (m : ℕ)
          → m < suc (length ps)
          → test p ≡ false
          → ((k : ℕ) → k < length ps → test (pcb_at ps k) ≡ false)
          → test (pcb_at (p ∷ ps) m) ≡ false
      beyond zero h miss f = miss
      beyond (suc m) h miss f = f m (omega arith)

  -- The first entry that passes is what the search gives.
  pub find_index_of_Finds : (t : List Pcb) (i : ℕ) → Finds t i → find_index test t ≡ some i
  find_index_of_Finds t i f = elim (find_index-cases t) [
    | inl (j, e, g) ↦ rw e (ap some (ground (arith, f.first j, g.first i, f.hit, g.hit)))
    | inr (e, none_hit) ↦ absurd (ground (arith, none_hit i f.within, f.hit))
  ]
