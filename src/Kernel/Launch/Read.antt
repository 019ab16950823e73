-- ===== src/Kernel/Launch/Read.antt =====
-- A launch in state READ by the work-items of any units.
use native.Mathlib.Decide.{ℕ_discrete}
use mathlib.Core.Path.{subst}
use ocl_gprm.Base.{
  All, ℕ, zero, suc, ◌+◌, ◌≤◌, ◌<◌, ◌≡◌, ◌≢◌, ◌⊎◌, inl, inr, refl, sym, ap, ◌∙◌, arith, Memory,
  store_self, store_ne, some, List, [], ◌∷◌, length,
}
use ocl_gprm.WorkItem.{WorkItem}
use ocl_gprm.Packet.{Packet}
use ocl_gprm.Subtask.Table.Stack.{available, IsStack}
use ocl_gprm.Queue.Window.{contents}
use ocl_gprm.Queue.Frame.{AllValid}
use ocl_gprm.Kernel.Progress.{IsInside}
use ocl_gprm.Kernel.{Buffers, reading}
use ocl_gprm.Kernel.Launch.Item.{vm-reading}
use ocl_gprm.Kernel.ReadPhase.{waiting, waiting-same, ReadOut, vm_read-returns}
use ocl_gprm.Kernel.Launch.{Device, view, put_back, run_item, launch}
use ocl_gprm.Kernel.Launch.Write.{AllUnits}

-- A device on which no unit has more packets waiting than records available, and none of them asks
-- for code with more arguments than a record has room for.
pub record IsReadable (n : ℕ) (c_store : Memory ℕ) (d : Device) : Type 0 where
  pub valid : AllValid d.q n
  pub state : d.state ≡ reading
  pub stack : (g : ℕ) → g < n → IsStack (d.subtask_list g)
  pub enough : (g : ℕ) → g < n → waiting g n 0 d.q n ≤ length (available (d.subtask_list g))
  pub inside : (g j : ℕ) → g < n → j < n → All (IsInside c_store) (contents g j d.q n)

abbrev pub AllAlone : List WorkItem → Type 0
AllAlone [] = Unit {0}
AllAlone (w ∷ ws) = (w.local_size ≡ 1) × AllAlone ws

-- Unit `g` has read all its packets.
abbrev pub Emptied : ℕ → ℕ → Device → Type 0
Emptied n g d = (i : ℕ) → i < n → contents g i d.q n ≡ []

abbrev pub SameQueues : ℕ → ℕ → Device → Device → Type 0
SameQueues n g d d' = (i : ℕ) → i < n → contents g i d'.q n ≡ contents g i d.q n

abbrev pub HasItem : ℕ → List WorkItem → Type 0
HasItem g [] = ⊥
HasItem g (w ∷ ws) = (w.group_id ≡ g) ⊎ HasItem g ws

-- What a launch in state READ has done, when it has had a work-item of each of the units `Done`.
pub record HasRead (n : ℕ) (c_store : Memory ℕ) (Done : ℕ → Type 0) (d d' : Device) : Type 0 where
  pub readable : IsReadable n c_store d'
  pub done : (g : ℕ) → g < n → Done g → Emptied n g d'
  pub any : (g : ℕ) → g < n → Emptied n g d' ⊎ SameQueues n g d d'

waiting-none :
    (g n left i : ℕ) (q : Memory Packet)
    → i + left ≡ n
    → ((j : ℕ) → j < n → contents g j q n ≡ [])
    → waiting g left i q n ≡ 0
waiting-none g n zero i q e h = refl
waiting-none g n (suc left) i q e h =
    omega (arith, ap length (h i (omega arith)), waiting-none g n left (i + 1) q (omega arith) h)

module _ (n : ℕ) (c_store : Memory ℕ) where
  module _ (w : WorkItem) (d : Device) (b' : Buffers) (hg : w.group_id < n)
      (ok : IsReadable n c_store d) (out : ReadOut w.group_id 0 n d.q b'.q) where
    abbrev after_read : Device
    after_read = put_back w d b'

    own-table : (g : ℕ) → w.group_id ≡ g → after_read.subtask_list g ≡ b'.global.table
    own-table g same =
        subst (λ g. after_read.subtask_list g ≡ b'.global.table) same
          (store_self d.subtask_list w.group_id b'.global.table)

    other-table : (g : ℕ) → w.group_id ≢ g → after_read.subtask_list g ≡ d.subtask_list g
    other-table g ne = store_ne d.subtask_list w.group_id g b'.global.table ne

    own-Emptied : (g : ℕ) → w.group_id ≡ g → Emptied n g after_read
    own-Emptied g same =
        subst (λ g. Emptied n g after_read) same (λ i hi. out.drained i (omega arith) hi)

    other-SameQueues : (g : ℕ) → g < n → w.group_id ≢ g → SameQueues n g d after_read
    other-SameQueues g h ne i hi = out.others g i h hi (inl ne)

    put_back-HasRead :
        b'.state ≡ d.state
        → IsStack b'.global.table
        → HasRead n c_store (λ g. w.group_id ≡ g) d after_read
    put_back-HasRead e stack = record {
      readable = record {
        valid = out.valid;
        state = e ∙ ok.state;
        stack = λ g h. elim (ℕ_discrete w.group_id g) [
          | yes same ↦ subst IsStack (sym (own-table g same)) stack
          | no ne ↦ subst IsStack (sym (other-table g ne)) (ok.stack g h)
        ];
        enough = λ g h. elim (ℕ_discrete w.group_id g) [
          | yes same ↦
              omega (arith, waiting-none g n n 0 after_read.q (omega arith) (own-Emptied g same))
          | no ne ↦
              subst (λ t. waiting g n 0 after_read.q n ≤ length (available t))
                (sym (other-table g ne))
                (omega (
                  arith,
                  ok.enough g h,
                  waiting-same g n n 0 d.q after_read.q
                      (λ j p r. other-SameQueues g h ne j (omega arith)),
                ))
        ];
        inside = λ g j h hj. elim (ℕ_discrete w.group_id g) [
          | yes same ↦ subst (All (IsInside c_store)) (sym (own-Emptied g same j hj)) tt
          | no ne ↦
              subst (All (IsInside c_store)) (sym (other-SameQueues g h ne j hj))
                (ok.inside g j h hj)
        ];
      };
      done = λ g h same. own-Emptied g same;
      any = λ g h. elim (ℕ_discrete w.group_id g) [
        | yes same ↦ inl (own-Emptied g same)
        | no ne ↦ inr (other-SameQueues g h ne)
      ];
    }

  run_item-HasRead :
      (w : WorkItem) (d : Device)
      → w.group_id < n
      → w.local_size ≡ 1
      → IsReadable n c_store d
      → (d' : Device) × (run_item w n c_store d ≡ some d')
        × HasRead n c_store (λ g. w.group_id ≡ g) d d'
  unfolding run_item
  run_item-HasRead w d hg alone ok =
      let (b', eq, e, stack, out) =
        vm_read-returns w n c_store hg alone (view w d) ok.valid
          (λ j hj. ok.inside w.group_id j hg hj) (ok.stack w.group_id hg)
          (ok.enough w.group_id hg) in
      (
        put_back w d b',
        rw (vm-reading w n c_store (view w d) ok.state, eq, run_item) refl,
        put_back-HasRead w d b' hg ok out e stack,
      )

  -- A unit that has read everything has nothing more to read.
  Emptied-later :
      (g : ℕ) (d1 d' : Device)
      → Emptied n g d1
      → Emptied n g d' ⊎ SameQueues n g d1 d'
      → Emptied n g d'
  Emptied-later g d1 d' before (inl now) i hi = now i hi
  Emptied-later g d1 d' before (inr same) i hi = same i hi ∙ before i hi

  HasRead-trans :
      {P Q : ℕ → Type 0} {d d1 d' : Device}
      → HasRead n c_store P d d1
      → HasRead n c_store Q d1 d'
      → HasRead n c_store (λ g. P g ⊎ Q g) d d'
  HasRead-trans {P} {Q} {d} {d1} {d'} s t = record {
    readable = t.readable;
    done = λ g h r. elim r [
      | inl p ↦ Emptied-later g d1 d' (s.done g h p) (t.any g h)
      | inr q ↦ t.done g h q
    ];
    any = λ g h. elim (s.any g h) [
      | inl before ↦ inl (Emptied-later g d1 d' before (t.any g h))
      | inr same ↦ elim (t.any g h) [
        | inl now ↦ inl now
        | inr same' ↦ inr (λ i hi. same' i hi ∙ same i hi)
      ]
    ];
  }

  pub launch-HasRead :
      (ws : List WorkItem) (d : Device)
      → AllUnits n ws
      → AllAlone ws
      → IsReadable n c_store d
      → (d' : Device) × (launch ws n c_store d ≡ some d')
        × HasRead n c_store (λ g. HasItem g ws) d d'
  unfolding launch
  launch-HasRead [] d units alone ok =
      (d, refl, record { readable = ok; done = λ g h p. absurd p; any = λ g h. inr (λ i hi. refl) })
  launch-HasRead (w ∷ ws) d units alone ok =
      let (d1, eq, s) = run_item-HasRead w d units.0 alone.0 ok in
      let (d', eq', t) = launch-HasRead ws d1 units.1 alone.1 s.readable in
      (d', rw (eq, launch) eq', HasRead-trans s t)
