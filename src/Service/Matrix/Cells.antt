-- ===== src/Service/Matrix/Cells.antt =====
-- Loops that write the cells of a matrix one after the other.
use ocl_gprm.Base.Grid.{index-ne, pair_cases}
use ocl_gprm.Base.{
  ℕ, ◌+◌, ◌*◌, ◌≤◌, ◌<◌, ◌≡◌, ◌⊎◌, inl, inr, refl, ◌∙◌, arith, Memory, store, store_self, store_ne,
}
use native.Mathlib.Decide.{dec_lt}

-- Between `m` and `m'`, the cells of the matrix at `at`, of rows of `n` words, have been given their
-- values from the index `from` up to `to`, and nothing else has changed.
module _ (at n : ℕ) (value : ℕ → ℕ → ℕ) where
  pub record Segment (from to : ℕ) (m m' : Memory ℕ) : Type 0 where
    pub outside : (k : ℕ) → (k < at + from) ⊎ (at + to ≤ k) → m' k ≡ m k
    pub cells :
        (i j : ℕ) → j < n → from ≤ i * n + j → i * n + j < to → m' (at + (i * n + j)) ≡ value i j

  pub Segment-refl : (from to : ℕ) (m : Memory ℕ) → to ≤ from → Segment from to m m
  Segment-refl from to m h = record {
    outside = λ k h. refl;
    cells = λ i j hj p q. absurd (omega arith);
  }

  pub Segment-trans :
      {from mid mid' to : ℕ} (first last : ℕ) {m m1 m' : Memory ℕ}
      → Segment from mid m m1
      → Segment mid' to m1 m'
      → from ≡ first
      → first ≤ mid
      → mid ≡ mid'
      → mid' ≤ to
      → to ≡ last
      → Segment first last m m'
  Segment-trans {from} {mid} first last s t e fm f mt g = record {
    outside = λ k h. elim h [
      | inl p ↦ t.outside k (inl (omega arith)) ∙ s.outside k (inl (omega arith))
      | inr p ↦ t.outside k (inr (omega arith)) ∙ s.outside k (inr (omega arith))
    ];
    cells = λ i j hj p q. elim (dec_lt (i * n + j) mid) [
      | yes early ↦
          t.outside (at + (i * n + j)) (inl (omega arith)) ∙ s.cells i j hj (omega arith) early
      | no late ↦ t.cells i j hj (omega arith) (omega arith)
    ];
  }

  pub store-Segment :
      (row col v : ℕ) (m : Memory ℕ)
      → col < n
      → v ≡ value row col
      → Segment (row * n + col) (row * n + col + 1) m (store m (at + (row * n + col)) v)
  store-Segment row col v m hc e = record {
    outside = λ k h. store_ne m (at + (row * n + col)) k v (ground arith);
    cells = λ i j hj p q. elim (pair_cases i j row col) [
      | inl (a, b) ↦ rw (a, b) (store_self m (at + (row * n + col)) v ∙ e)
      | inr ne ↦ absurd (omega (arith, index-ne n i j row col hj hc ne))
    ];
  }
