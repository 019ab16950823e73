-- ===== src/Kernel/Launch/Item.antt =====
-- What one work-item does, by the state that it meets.
use mathlib.Core.Path.{subst}
use native.Mathlib.Decide.{ℕ_discrete}
use ocl_gprm.Base.{
  ℕ, ◌≡◌, ◌≢◌, refl, ap, fun_ext, Memory, store, some, sym, ◌∙◌, Ensures, Ensures-then, Ensures-any,
  List, [], ◌∷◌, ==_of_ne, store_self, store_ne,
}
use ocl_gprm.WorkItem.{WorkItem}
use ocl_gprm.Packet.{Packet}
use ocl_gprm.Kernel.{complete, reading, writing, Global, Buffers, read_from, vm, vm_read, vm_write}
use ocl_gprm.Kernel.Launch.{Device, view, put_back, run_item, launch}

pub store_same : {A : Type 0} (m : Memory A) (i : ℕ) → store m i (m i) ≡ m
unfolding store
store_same m i = fun_ext (λ j. elim (ℕ_discrete i j) [
  | yes e ↦ rw (e) (store_self m j (m j))
  | no ne ↦ store_ne m i j (m i) ne
])

module _ (w : WorkItem) (n : ℕ) (c_store : Memory ℕ) where
  pub vm-writing :
      (b : Buffers) → b.state ≡ writing → w.local_id ≡ 0 → vm w n c_store b ≡ vm_write w n b
  unfolding vm
  vm-writing b e f = rw (e, f) refl

  pub vm-idle : (b : Buffers) → b.state ≡ writing → w.local_id ≢ 0 → vm w n c_store b ≡ some b
  unfolding vm
  vm-idle b e f = rw (e, ==_of_ne w.local_id 0 f) refl

  pub vm-reading : (b : Buffers) → b.state ≡ reading → vm w n c_store b ≡ vm_read w n c_store b
  unfolding vm
  vm-reading b e = rw (e) refl

  pub vm-complete : (b : Buffers) → b.state ≡ complete → vm w n c_store b ≡ some b
  unfolding vm
  vm-complete b e = rw (e) refl

  pub run_item-same :
      (d : Device) → vm w n c_store (view w d) ≡ some (view w d) → run_item w n c_store d ≡ some d
  unfolding run_item
  run_item-same d e =
      rw (e, run_item)
        (ap (λ t. some (record d { subtask_list = t })) (store_same d.subtask_list w.group_id))

-- Reading leaves the state as it is.
abbrev pub IsReading : Device → Type 0
IsReading d = d.state ≡ reading

module _ (n : ℕ) (c_store : Memory ℕ) where
  vm_read-state :
      (w : WorkItem) (b : Buffers)
      → Ensures (λ (b' : Buffers). b'.state ≡ b.state) (vm_read w n c_store b)
  unfolding vm_read
  vm_read-state w b =
      Ensures-then (λ _. Unit {0}) (λ (b' : Buffers). b'.state ≡ b.state)
        (read_from n w 0 n c_store b.q b.global)
        (λ (r : Memory Packet × Global). some (record b { q = r.0; global = r.1 }))
        (Ensures-any (read_from n w 0 n c_store b.q b.global)) (λ r h. refl)

  run_item-IsReading :
      (w : WorkItem) (d : Device) → IsReading d → Ensures IsReading (run_item w n c_store d)
  unfolding run_item
  run_item-IsReading w d e =
      Ensures-then (λ (b : Buffers). b.state ≡ d.state) IsReading (vm w n c_store (view w d))
        (λ b. some (put_back w d b))
        (subst (Ensures (λ (b : Buffers). b.state ≡ d.state))
          (sym (vm-reading w n c_store (view w d) e)) (vm_read-state w (view w d)))
        (λ b same. same ∙ e)

  pub launch-IsReading :
      (ws : List WorkItem) (d : Device) → IsReading d → Ensures IsReading (launch ws n c_store d)
  unfolding launch
  launch-IsReading [] d e = e
  launch-IsReading (w ∷ ws) d e =
      Ensures-then IsReading IsReading (run_item w n c_store d) (λ d'. launch ws n c_store d')
        (run_item-IsReading w d e) (λ d' e'. launch-IsReading ws d' e')

module _ (n : ℕ) where
  pub launch-complete :
      (ws : List WorkItem) (c_store : Memory ℕ) (d : Device)
      → d.state ≡ complete
      → launch ws n c_store d ≡ some d
  unfolding launch
  launch-complete [] c_store d e = refl
  launch-complete (w ∷ ws) c_store d e =
      rw (run_item-same w n c_store d (vm-complete w n c_store (view w d) e), launch)
        (launch-complete ws c_store d e)
