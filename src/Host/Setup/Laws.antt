-- ===== src/Host/Setup/Laws.antt =====
-- What the host hands to the first launch.
use ocl_gprm.Base.Grid.{index-lt, pair_cases}
use mathlib.Core.List.{Perm}
use mathlib.Core.List.Perm
use native.Mathlib.Decide.{ℕ_discrete}
use mathlib.Core.Path.{subst}
use ocl_gprm.Base.{
  u16, ℕ, zero, suc, ◌+◌, ◌-◌, ◌*◌, ◌/◌, ◌^◌, ◌≤◌, ◌<◌, ◌≡◌, ◌≢◌, ◌⊎◌, inl, inr, refl, sym, ap, ap₂,
  ◌∙◌, arith, [], ◌∷◌, Memory, store, store_self, store_ne,
}
use ocl_gprm.Macros.{max_bytecode_sz, subt_size, reference, return_address}
use ocl_gprm.Packet.{Packet, pkt_create}
use ocl_gprm.Queue.{q_get_head_index, q_get_tail_index}
use ocl_gprm.Queue.Ring.{IsValid, count}
use ocl_gprm.Queue.Window.{contents, window, base}
use ocl_gprm.Queue.Frame.{AllValid}
use ocl_gprm.Subtask.Table.{SubtaskTable, subt_top}
use ocl_gprm.Subtask.Table.Stack.{entries, available, IsStack}
use ocl_gprm.Subtask.Table.Alloc.{Allocated, all_records}
use ocl_gprm.Host.Setup.{
  pkt_base_init, q_buf_size, clear_from, init_queues, init_read_queues, fill_stack, create_subtask,
}

fill_stack-below : (left i : ℕ) (m : Memory ℕ) (j : ℕ) → j < i → fill_stack left i m j ≡ m j
unfolding fill_stack
fill_stack-below zero i m j h = refl
fill_stack-below (suc left) i m j h =
    fill_stack-below left (i + 1) (store m i (i - 1)) j (omega arith)
    ∙ store_ne m i j (i - 1) (omega arith)

fill_stack-entries :
    (left i : ℕ) (m : Memory ℕ) → entries (fill_stack left i m) i left ≡ entries (λ j. j - 1) i left
unfolding fill_stack
fill_stack-entries zero i m = refl
fill_stack-entries (suc left) i m =
    ap₂ ◌∷◌
      (fill_stack-below left (i + 1) (store m i (i - 1)) i (omega arith) ∙ store_self m i (i - 1))
      (fill_stack-entries left (i + 1) (store m i (i - 1)))

pub create_subtask-top : (t : SubtaskTable) → subt_top (create_subtask t) ≡ 1
unfolding create_subtask
create_subtask-top t =
    fill_stack-below subt_size 1 (store t.av_recs 0 1) 0 (omega arith) ∙ store_self t.av_recs 0 1

available-new : (t : SubtaskTable) → subt_top t ≡ 1 → available t ≡ entries t.av_recs 1 subt_size
available-new t e = ap (λ top. entries t.av_recs top (suc subt_size - top)) e

create_subtask-available : (t : SubtaskTable) → available (create_subtask t) ≡ all_records
unfolding all_records create_subtask
create_subtask-available t =
    available-new (create_subtask t) (create_subtask-top t)
    ∙ fill_stack-entries subt_size 1 (store t.av_recs 0 1)

-- A table that the host has created has its stack pointer inside the stack, and every record is
-- available exactly once.
pub create_subtask-Allocated :
    (t : SubtaskTable) → IsStack (create_subtask t) × Allocated [] (create_subtask t)
create_subtask-Allocated t = (
  omega (arith, create_subtask-top t),
  subst (λ l. Perm l all_records) (sym (create_subtask-available t)) (Perm.refl all_records),
)

clear_from-outside : (left i : ℕ) (q : Memory Packet) (j : ℕ) → j < i → clear_from left i q j ≡ q j
unfolding clear_from
clear_from-outside zero i q j h = refl
clear_from-outside (suc left) i q j h =
    clear_from-outside left (i + 1) (store q i pkt_base_init) j (omega arith)
    ∙ store_ne q i j pkt_base_init (omega arith)

clear_from-inside :
    (left i : ℕ) (q : Memory Packet) (j : ℕ)
    → i ≤ j
    → j < i + left
    → clear_from left i q j ≡ pkt_base_init
unfolding clear_from
clear_from-inside zero i q j p r = absurd (omega arith)
clear_from-inside (suc left) i q j p r = elim (ℕ_discrete j i) [
  | yes e ↦ rw (e) (
      clear_from-outside left (i + 1) (store q i pkt_base_init) i (omega arith)
      ∙ store_self q i pkt_base_init)
  | no ne ↦ clear_from-inside left (i + 1) (store q i pkt_base_init) j (omega arith) (omega arith)
]

-- A queue is valid and its packets are known, when the header is.
header-known :
    (a b : ℕ) (q : Memory Packet) (n head tail op : ℕ)
    → head < max_bytecode_sz
    → tail < max_bytecode_sz
    → op < 2
    → q (a * n + b) ≡ record { x = head + tail * 2 ^ 16; y = op }
    → IsValid a b q n × (contents a b q n ≡ window q (base a b n) head (count head tail op))
unfolding q_get_head_index q_get_tail_index
header-known a b q n head tail op p r o e = (
  record { head_in = rw e (omega arith); tail_in = rw e (omega arith); last_op = rw e o },
  ap (λ i. window q (base a b n) i (count i (u16 ((q (a * n + b)).x / 2 ^ 16)) (q (a * n + b)).y))
        head_is
      ∙ ap (λ i. window q (base a b n) head (count head i (q (a * n + b)).y)) tail_is
      ∙ ap (λ c. window q (base a b n) head (count head tail c.y)) e,
)
  where
    head_is : u16 (q (a * n + b)).x ≡ head
    head_is = rw e (omega arith)

    tail_is : u16 ((q (a * n + b)).x / 2 ^ 16) ≡ tail
    tail_is = rw e (omega arith)

-- The packet by which the host starts a program: a reference to the root code, its source the
-- number that is no compute unit.
abbrev pub root_packet : ℕ → Packet
root_packet root_address = pkt_create pkt_base_init reference return_address 0 0 root_address

module _ (n root : ℕ) (q : Memory Packet) (h : 0 < n) where
  nonzero : 0 ≢ n * n
  nonzero = grind arith

  init-header : init_queues n root q 0 ≡ record { x = 2 ^ 16; y = 1 }
  unfolding init_queues
  init-header = store_self _ 0 _ ∙ ap (λ (c : Packet). record { x = c.x; y = 1 }) (store_self _ 0 _)

  init-root : init_queues n root q (n * n) ≡ root_packet root
  unfolding init_queues
  init-root =
      store_ne _ 0 (n * n) _ nonzero ∙ store_ne _ 0 (n * n) _ nonzero ∙ store_self _ (n * n) _

  init-other : (j : ℕ) → 0 < j → j < n * n → init_queues n root q j ≡ pkt_base_init
  unfolding init_queues
  init-other j p r =
      store_ne _ 0 j _ (omega arith)
      ∙ store_ne _ 0 j _ (omega arith)
      ∙ store_ne _ (n * n) j _ (omega arith)
      ∙ clear_from-inside (q_buf_size n) 0 q j (omega arith) (omega arith)

  init-first :
      IsValid 0 0 (init_queues n root q) n
      × (contents 0 0 (init_queues n root q) n ≡ root_packet root ∷ [])
  unfolding count
  init-first =
      let known =
        header-known 0 0 (init_queues n root q) n 0 1 1 (omega arith) (omega arith) (omega arith)
          (ap (init_queues n root q) {y = 0} (omega arith) ∙ init-header) in
      (known.0, known.1 ∙ ap (λ c. c ∷ []) (ap (init_queues n root q) (omega arith) ∙ init-root))

  module _ (a b : ℕ) (ha : a < n) (hb : b < n) (ne : (a ≢ 0) ⊎ (b ≢ 0)) where
    header-pos : 0 < a * n + b
    header-pos = elim ne [ inl k ↦ grind arith | inr k ↦ omega arith ]

    init-rest : IsValid a b (init_queues n root q) n × (contents a b (init_queues n root q) n ≡ [])
    unfolding count
    init-rest =
        header-known a b (init_queues n root q) n 0 0 0 (omega arith) (omega arith) (omega arith)
          (init-other (a * n + b) header-pos (index-lt n a b ha hb))

  -- Before the first launch, for at least one compute unit, every queue is valid; the queue from
  -- compute unit 0 to itself holds the root reference packet alone, and every other queue is empty.
  pub init_queues-root :
      AllValid (init_queues n root q) n
      × (contents 0 0 (init_queues n root q) n ≡ root_packet root ∷ [])
      × ((a b : ℕ) → a < n → b < n → (a ≢ 0) ⊎ (b ≢ 0) → contents a b (init_queues n root q) n ≡ [])
  init_queues-root = (
    (λ a b ha hb. elim (pair_cases a b 0 0) [
      | inl (p, r) ↦ rw (p, r) (init-first.0)
      | inr ne ↦ (init-rest a b ha hb ne).0
    ]),
    init-first.1,
    (λ a b ha hb ne. (init-rest a b ha hb ne).1),
  )

module _ (n : ℕ) (q : Memory Packet) where
  -- The transfer queues are valid and empty before the first launch.
  pub init_read_queues-empty :
      (a b : ℕ)
      → a < n
      → b < n
      → IsValid a b (init_read_queues n q) n × (contents a b (init_read_queues n q) n ≡ [])
  unfolding init_read_queues count
  init_read_queues-empty a b ha hb =
      header-known a b (init_read_queues n q) n 0 0 0 (omega arith) (omega arith) (omega arith) (
        clear_from-inside (q_buf_size n) 0 q (a * n + b) (omega arith)
          (omega (arith, index-lt n a b ha hb)))

-- A table that the host has created has the records that `new` returned.
pub create_subtask-recs : (t : SubtaskTable) → (create_subtask t).recs ≡ t.recs
unfolding create_subtask
create_subtask-recs t = refl
