-- ===== src/Host/Loop/Items.antt =====
-- All compute units take part in a launch, the first thread of each among them.
use mathlib.Core.List.{
  Perm, Mem, Mem-prop, not-mem-nil, mem-cons_self, mem-cons_of_mem, eq-or-mem_of_mem-cons,
  mem-append_left, mem-append_right,
}
use mathlib.Core.List.Perm
use mathlib.Core.Logic.Or
use mathlib.Core.Path.{subst}
use native.Mathlib.Bridge.{le_prop}
use native.Mathlib.Nat.{ℕ_set}
use native.Mathlib.Decide.{ℕ_discrete}
use ocl_gprm.Base.{
  ℕ, zero, suc, ◌+◌, ◌≤◌, ◌<◌, ◌≡◌, inl, inr, refl, sym, ap, ◌∙◌, arith, List, [], ◌∷◌, ◌++◌,
}
use ocl_gprm.WorkItem.{WorkItem}
use ocl_gprm.Packet.{Packet}
use ocl_gprm.Kernel.Launch.Write.{HasFirst, AllUnits}
use ocl_gprm.Kernel.Launch.Read.{AllAlone}
use ocl_gprm.Host.Loop.{work_item, threads, groups, nd_range}

-- A list of work-items of units, by its members.
AllUnits-Mem :
    (n : ℕ) (ws : List WorkItem) → ((w : WorkItem) → Mem w ws → w.group_id < n) → AllUnits n ws
AllUnits-Mem n [] h = tt
AllUnits-Mem n (w ∷ ws) h =
    (h w mem-cons_self, AllUnits-Mem n ws (λ v m. h v (mem-cons_of_mem w m)))

Mem-AllUnits :
    (n : ℕ) (ws : List WorkItem) (w : WorkItem) → AllUnits n ws → Mem w ws → w.group_id < n
Mem-AllUnits n [] w units m = absurd (not-mem-nil m)
Mem-AllUnits n (v ∷ ws) w units m =
    Or.elim le_prop (eq-or-mem_of_mem-cons m)
      (λ e. subst (λ (u : WorkItem). u.group_id < n) (sym e) units.0)
      (λ rest. Mem-AllUnits n ws w units.1 rest)

HasFirst-Mem :
    (g : ℕ) (ws : List WorkItem) (w : WorkItem)
    → w.group_id ≡ g
    → w.local_id ≡ 0
    → Mem w ws
    → HasFirst g ws
HasFirst-Mem g [] w e f m = absurd (not-mem-nil m)
HasFirst-Mem g (v ∷ ws) w e f m = elim (ℕ_discrete v.group_id g) [
  | no ne ↦ inr (
      HasFirst-Mem g ws w e f
        (later (λ same. ne (ap (λ (u : WorkItem). u.group_id) (sym same) ∙ e))))
  | yes a ↦ elim (ℕ_discrete v.local_id 0) [
    | no ne ↦ inr (
        HasFirst-Mem g ws w e f
          (later (λ same. ne (ap (λ (u : WorkItem). u.local_id) (sym same) ∙ f))))
    | yes b ↦ inl (a, b)
  ]
]
  where
    later : ¬ (w ≡ v) → Mem w ws
    later ne = Or.elim Mem-prop (eq-or-mem_of_mem-cons m) (λ same. absurd (ne same)) (λ rest. rest)

-- And a list of work-items that are the only ones of their groups.
AllAlone-Mem : (ws : List WorkItem) → ((w : WorkItem) → Mem w ws → w.local_size ≡ 1) → AllAlone ws
AllAlone-Mem [] h = tt
AllAlone-Mem (w ∷ ws) h = (h w mem-cons_self, AllAlone-Mem ws (λ v m. h v (mem-cons_of_mem w m)))

Mem-AllAlone : (ws : List WorkItem) (w : WorkItem) → AllAlone ws → Mem w ws → w.local_size ≡ 1
Mem-AllAlone [] w all m = absurd (not-mem-nil m)
Mem-AllAlone (v ∷ ws) w all m =
    Or.elim (ℕ_set _ _) (eq-or-mem_of_mem-cons m)
      (λ e. subst (λ (u : WorkItem). u.local_size ≡ 1) (sym e) all.0)
      (λ rest. Mem-AllAlone ws w all.1 rest)

module _ (n nth : ℕ) (uninit : ℕ → ℕ → Packet) where
  threads-AllUnits :
      (left group thread : ℕ) → group < n → AllUnits n (threads left n nth uninit group thread)
  unfolding threads
  threads-AllUnits zero group thread h = tt
  threads-AllUnits (suc left) group thread h = (h, threads-AllUnits left group (thread + 1) h)

  AllUnits-append : (xs ys : List WorkItem) → AllUnits n xs → AllUnits n ys → AllUnits n (xs ++ ys)
  AllUnits-append [] ys h k = k
  AllUnits-append (x ∷ xs) ys h k = (h.0, AllUnits-append xs ys h.1 k)

  groups-AllUnits :
      (left group : ℕ) → group + left ≤ n → AllUnits n (groups left n nth uninit group)
  unfolding groups
  groups-AllUnits zero group h = tt
  groups-AllUnits (suc left) group h =
      AllUnits-append _ _ (threads-AllUnits nth group 0 (omega arith))
        (groups-AllUnits left (group + 1) (omega arith))

  threads-Mem :
      (left group : ℕ)
      → 0 < left
      → Mem (work_item n nth uninit group 0) (threads left n nth uninit group 0)
  unfolding threads
  threads-Mem zero group h = absurd (omega arith)
  threads-Mem (suc left) group h = mem-cons_self

  groups-Mem :
      (left group g : ℕ)
      → 0 < nth
      → group ≤ g
      → g < group + left
      → Mem (work_item n nth uninit g 0) (groups left n nth uninit group)
  unfolding groups
  groups-Mem zero group g some_thread h k = absurd (omega arith)
  groups-Mem (suc left) group g some_thread h k = elim (ℕ_discrete g group) [
    | yes e ↦
        rw e (
          mem-append_left (groups left n nth uninit (group + 1))
            (threads-Mem nth group some_thread))
    | no ne ↦
        mem-append_right (threads nth n nth uninit group 0)
          (groups-Mem left (group + 1) g some_thread (omega arith) (omega arith))
  ]

  threads-AllAlone :
      (left group thread : ℕ) → nth ≡ 1 → AllAlone (threads left n nth uninit group thread)
  unfolding threads
  threads-AllAlone zero group thread h = tt
  threads-AllAlone (suc left) group thread h = (h, threads-AllAlone left group (thread + 1) h)

  AllAlone-append : (xs ys : List WorkItem) → AllAlone xs → AllAlone ys → AllAlone (xs ++ ys)
  AllAlone-append [] ys h k = k
  AllAlone-append (x ∷ xs) ys h k = (h.0, AllAlone-append xs ys h.1 k)

  groups-AllAlone : (left group : ℕ) → nth ≡ 1 → AllAlone (groups left n nth uninit group)
  unfolding groups
  groups-AllAlone zero group h = tt
  groups-AllAlone (suc left) group h =
      AllAlone-append _ _ (threads-AllAlone nth group 0 h) (groups-AllAlone left (group + 1) h)

  module _ (ws : List WorkItem) (order : Perm ws (nd_range n nth uninit)) where
    -- In a launch all work-items are those of the `n` units, and where a unit has a thread at all, the
    -- first thread of each is among them.
    pub nd_range-AllUnits : AllUnits n ws
    nd_range-AllUnits = AllUnits-Mem n ws (λ w m.
        Mem-AllUnits n (nd_range n nth uninit) w (groups-AllUnits n 0 (omega arith))
          ((Perm.mem_iff order).0 m))

    pub nd_range-AllAlone : nth ≡ 1 → AllAlone ws
    nd_range-AllAlone h = AllAlone-Mem ws (λ w m.
        Mem-AllAlone (nd_range n nth uninit) w (groups-AllAlone n 0 h) ((Perm.mem_iff order).0 m))

    pub nd_range-HasFirst : 0 < nth → (g : ℕ) → g < n → HasFirst g ws
    nd_range-HasFirst some_thread g h =
        HasFirst-Mem g ws (work_item n nth uninit g 0) refl refl
          ((Perm.mem_iff order).1 (groups-Mem n 0 g some_thread (omega arith) (omega arith)))
