-- ===== src/Subtask/Table/Alloc.antt =====
-- No subtask record is ever handed out twice: the records in use and the available ones together
-- are all records, each once.
use mathlib.Core.List.{
  Perm, Nodup, Nodup-cons, Nodup-nil, Mem, mem-cons, not-mem-nil, perm_middle, mem-append_left,
}
use mathlib.Core.List.Perm
use mathlib.Core.Logic.Or
use native.Mathlib.Bridge.{le_prop, from_ℕ}
use mathlib.Core.List
use mathlib.Core.Option.{some-injective}
use mathlib.Core.Path.{subst}
use ocl_gprm.Base.{
  ℕ, zero, suc, ◌+◌, ◌-◌, ◌≤◌, ◌≡◌, refl, sym, ap, ◌∙◌, arith, some, List, [], ◌∷◌, ◌++◌, inl, true,
  inr, length, length-append,
}
use ocl_gprm.Macros.{subt_size}
use ocl_gprm.Subtask.Table.{SubtaskTable, subt_pop, subt_push}
use ocl_gprm.Subtask.Table.Stack.{
  entries, length-entries, available, IsStack, subt_pop_refines, subt_push_refines,
}

-- All records of a table, in the order of the initial stack.
unfoldable pub all_records : List ℕ
all_records = entries (λ i. i - 1) 1 subt_size

-- `used` are the records in use.
abbrev pub Allocated : List ℕ → SubtaskTable → Type 0
Allocated used t = Perm (used ++ available t) all_records

mem-entries : (x i k : ℕ) → Mem x (entries (λ j. j - 1) i k) → i ≤ suc x
mem-entries x i zero m = absurd (not-mem-nil m)
mem-entries x i (suc k) m =
    Or.elim le_prop (mem-cons.0 m) (λ e. omega arith)
      (λ h. omega (arith, mem-entries x (i + 1) k h))

Nodup-entries : (i k : ℕ) → 1 ≤ i → Nodup (entries (λ j. j - 1) i k)
Nodup-entries i zero h = Nodup-nil
Nodup-entries i (suc k) h = Nodup-cons.1 (
  (λ m. absurd (omega (arith, mem-entries (i - 1) (i + 1) k m))),
  Nodup-entries (i + 1) k (omega arith),
)

-- A record that is handed out was not in use.
pub Allocated-Nodup :
    (used : List ℕ) (t : SubtaskTable) → Allocated used t → Nodup (used ++ available t)
unfolding all_records
Allocated-Nodup used t p = Perm.nodup (Perm.symm p) (Nodup-entries 1 subt_size (omega arith))

length-core : (l : List ℕ) → length l ≡ from_ℕ (List.length l)
length-core [] = refl
length-core (x ∷ l) = ap suc (length-core l)

length-Perm : (l m : List ℕ) → Perm l m → length l ≡ length m
length-Perm l m p = length-core l ∙ ap from_ℕ (Perm.length-eq p) ∙ sym (length-core m)

length-all_records : length all_records ≡ subt_size
unfolding all_records
length-all_records = length-entries (λ i. i - 1) 1 subt_size

-- The number of records in use and of available ones.
pub Allocated-length :
    (used : List ℕ) (t : SubtaskTable)
    → Allocated used t
    → length used + length (available t) ≡ subt_size
Allocated-length used t p =
    sym (length-append used (available t))
    ∙ length-Perm (used ++ available t) all_records p
    ∙ length-all_records

module _ (used : List ℕ) (t : SubtaskTable) (ok : IsStack t) where
  -- Where the records in use and the available ones are all records, each once, a record that is
  -- popped was not in use, it is in use afterwards, and the same holds of the new table.
  pub subt_pop-Allocated :
      (i : ℕ) (t' : SubtaskTable)
      → Allocated used t
      → subt_pop t ≡ some (i, t')
      → (¬ Mem i used) × Allocated (i ∷ used) t' × IsStack t'
  subt_pop-Allocated i t' all e = elim (subt_pop_refines t ok) [
    | inl (_, failed) ↦ cc
    | inr (j, s, popped, left, same, stack) ↦
        subst
          (λ (r : ℕ × SubtaskTable). (¬ Mem r.0 used) × Allocated (r.0 ∷ used) r.1 × IsStack r.1)
          (some-injective (j, s) (i, t') (sym popped ∙ e)) (taken j s left stack)
  ]
    where
      moved : (j : ℕ) (s : SubtaskTable) → available t ≡ j ∷ available s → Allocated (j ∷ used) s
      moved j s left = Perm.trans (Perm.symm (perm_middle used (available s))) (rw (sym left) all)

      taken :
          (j : ℕ) (s : SubtaskTable)
          → available t ≡ j ∷ available s
          → IsStack s
          → (¬ Mem j used) × Allocated (j ∷ used) s × IsStack s
      taken j s left stack = (
        (λ m.
            (Nodup-cons.0 (Allocated-Nodup (j ∷ used) s (moved j s left))).0
              (mem-append_left (available s) m)),
        moved j s left,
        stack,
      )

  -- Giving a record in use back always succeeds, where the records in use and the available ones are
  -- all records, each once; the record is then available and no longer in use.
  pub subt_push-Allocated :
      (i : ℕ)
      → Allocated (i ∷ used) t
      → (t' : SubtaskTable) × (subt_push i t ≡ (true, t')) × Allocated used t' × IsStack t'
  subt_push-Allocated i all = elim (subt_push_refines t ok i) [
    | inl (full, _) ↦ absurd (omega (arith, Allocated-length (i ∷ used) t all))
    | inr (s, pushed, now, same, stack) ↦
        (s, pushed, rw now (Perm.trans (perm_middle used (available t)) all), stack)
  ]
