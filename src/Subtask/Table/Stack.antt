-- ===== src/Subtask/Table/Stack.antt =====
-- The stack of available records hands out each record at most once.
use ocl_gprm.Base.{
  ℕ, zero, suc, ◌+◌, ◌-◌, ◌≤◌, ◌<◌, ◌≡◌, refl, sym, ap, ap₂, ◌∙◌, arith, true, false, none, some,
  Memory, store, store_self, store_ne, List, [], ◌∷◌, length, Bool-cases, inl, inr, ◌⊎◌,
}
use ocl_gprm.Macros.{subt_size}
use ocl_gprm.Subtask.Table.{
  SubtaskTable, subt_top, subt_set_top, subt_is_full, subt_is_empty, subt_push, subt_pop,
}

-- `k` entries of the stack from index `i` on.
abbrev pub entries : Memory ℕ → ℕ → ℕ → List ℕ
entries m i zero = []
entries m i (suc k) = m i ∷ entries m (i + 1) k

-- The available records, the next one to be handed out first.
abbrev pub available : SubtaskTable → List ℕ
available t = entries t.av_recs (subt_top t) (suc subt_size - subt_top t)

-- The stack pointer stays inside the array.
abbrev pub IsStack : SubtaskTable → Type 0
IsStack t = (1 ≤ subt_top t) × (subt_top t ≤ suc subt_size)

pub length-entries : (m : Memory ℕ) (i k : ℕ) → length (entries m i k) ≡ k
length-entries m i zero = refl
length-entries m i (suc k) = ap suc (length-entries m (i + 1) k)

pub entries_ext :
    (m m' : Memory ℕ) (i k : ℕ)
    → ((j : ℕ) → i ≤ j → j < i + k → m' j ≡ m j)
    → entries m' i k ≡ entries m i k
entries_ext m m' i zero same = refl
entries_ext m m' i (suc k) same =
    ap₂ ◌∷◌ (same i (omega arith) (omega arith))
      (entries_ext m m' (i + 1) k (λ j p r. same j (omega arith) (omega arith)))

-- The available records of a table whose stack is `m` with its top moved to `top`.
available-set_top :
    (t : SubtaskTable) (top : ℕ)
    → 1 ≤ top
    → available (subt_set_top t top) ≡ entries t.av_recs top (suc subt_size - top)
unfolding subt_set_top
available-set_top t top h =
    rw (store_self t.av_recs 0 top)
      (entries_ext t.av_recs _ top _ (λ j p r. store_ne t.av_recs 0 j top (omega arith)))

IsStack-set_top :
    (t : SubtaskTable) (top : ℕ) → 1 ≤ top → top ≤ suc subt_size → IsStack (subt_set_top t top)
unfolding subt_set_top
IsStack-set_top t top p r = omega (arith, store_self t.av_recs 0 top)

module _ (t : SubtaskTable) (ok : IsStack t) where
  pop-available :
      subt_is_full t ≡ false
      → available t ≡ t.av_recs (subt_top t) ∷ available (subt_set_top t (subt_top t + 1))
  unfolding subt_is_full
  pop-available h =
      ap (entries t.av_recs (subt_top t)) {y = suc (suc subt_size - (subt_top t + 1))}
        (ground arith)
      ∙ ap (λ l. t.av_recs (subt_top t) ∷ l)
          (sym (available-set_top t (subt_top t + 1) (omega arith)))

  -- On a table whose stack pointer is inside the stack, a pop fails exactly when no record is
  -- available; otherwise it returns the first available record and leaves the others, and the stack
  -- pointer stays inside.
  pub subt_pop_refines :
      ((available t ≡ []) × (subt_pop t ≡ none))
      ⊎ ((i : ℕ) × (t' : SubtaskTable) × (subt_pop t ≡ some (i, t'))
          × (available t ≡ i ∷ available t')
          × (t'.recs ≡ t.recs)
          × IsStack t')
  unfolding subt_pop subt_set_top subt_is_full
  subt_pop_refines = elim (Bool-cases (subt_is_full t)) [
    | inl full ↦ inl (ap (entries t.av_recs (subt_top t)) {y = 0} (ground arith), rw full)
    | inr left ↦ inr (
      t.av_recs (subt_top t),
      subt_set_top t (subt_top t + 1),
      rw left,
      pop-available left,
      refl,
      IsStack-set_top t (subt_top t + 1) (omega arith) (ground arith),
    )
  ]

  -- The stack with `i` written below the top.
  abbrev pushed : ℕ → SubtaskTable
  pushed i = record t { av_recs = store t.av_recs (subt_top t - 1) i }

  push-available :
      (i : ℕ)
      → subt_is_empty t ≡ false
      → available (subt_set_top (pushed i) (subt_top t - 1)) ≡ i ∷ available t
  unfolding subt_is_empty
  push-available i h =
      let low : 1 ≤ subt_top t - 1 = ground arith in
      available-set_top (pushed i) (subt_top t - 1) low
      ∙ ap (entries (pushed i).av_recs (subt_top t - 1)) {y = suc (suc subt_size - subt_top t)}
          (omega arith)
      ∙ ap₂ ◌∷◌ (store_self t.av_recs (subt_top t - 1) i) (
          ap (λ j. entries (pushed i).av_recs j (suc subt_size - subt_top t)) {y = subt_top t}
            (omega arith)
          ∙ entries_ext t.av_recs _ (subt_top t) _
              (λ j p r. store_ne t.av_recs (subt_top t - 1) j i (omega arith)))

  -- On a table whose stack pointer is inside the stack, a push fails exactly when every record is
  -- available; otherwise it makes the record available again, as the next one to be handed out, and
  -- the stack pointer stays inside.
  pub subt_push_refines :
      (i : ℕ)
      → ((length (available t) ≡ subt_size) × (subt_push i t ≡ (false, t)))
        ⊎ ((t' : SubtaskTable) × (subt_push i t ≡ (true, t'))
            × (available t' ≡ i ∷ available t)
            × (t'.recs ≡ t.recs)
            × IsStack t')
  unfolding subt_push subt_set_top subt_is_empty
  subt_push_refines i = elim (Bool-cases (subt_is_empty t)) [
    | inl full ↦ inl (length-entries _ _ _ ∙ ground arith, rw full)
    | inr left ↦ inr (
      subt_set_top (pushed i) (subt_top t - 1),
      rw left,
      push-available i left,
      refl,
      IsStack-set_top (pushed i) (subt_top t - 1) (ground arith) (omega arith),
    )
  ]
