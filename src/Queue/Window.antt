-- ===== src/Queue/Window.antt =====
-- The packets that a ring of the buffer holds, and how their number follows from its indices.
use ocl_gprm.Base.{
  ℕ, zero, suc, ◌+◌, ◌*◌, ◌%◌, ◌≤◌, ◌<◌, ◌≡◌, ◌≢◌, refl, arith, true, false, Memory, List, [], ◌∷◌,
  ◌++◌, ap, ap₂, ◌∙◌, length,
}
use ocl_gprm.Macros.{read, write, max_bytecode_sz}
use ocl_gprm.Packet.{Packet}
use ocl_gprm.Queue.{
  q_get_head_index, q_get_tail_index, q_is_empty, q_is_full, q_last_op_is_read, q_last_op_is_write,
}
use ocl_gprm.Queue.Ring.{IsValid, count}

-- The `k` packets from ring index `h` on, of the ring that starts at `base`.
abbrev pub window : Memory Packet → ℕ → ℕ → ℕ → List Packet
window q base h zero = []
window q base h (suc k) = q (base + h) ∷ window q base ((h + 1) % max_bytecode_sz) k

-- Where the slots of a queue begin.
abbrev pub base : ℕ → ℕ → ℕ → ℕ
base a b n = n * n + a * n * max_bytecode_sz + b * max_bytecode_sz

-- The packets of a queue, the oldest first.
abbrev pub contents : ℕ → ℕ → Memory Packet → ℕ → List Packet
contents a b q n =
    window q (base a b n) (q_get_head_index a b q n)
      (count (q_get_head_index a b q n) (q_get_tail_index a b q n) (q (a * n + b)).y)

pub length-window : (q : Memory Packet) (base h k : ℕ) → length (window q base h k) ≡ k
length-window q base h zero = refl
length-window q base h (suc k) = ap suc (length-window q base ((h + 1) % max_bytecode_sz) k)

-- A window depends on the ring's slots only.
pub window_ext :
    (q q' : Memory Packet) (base h k : ℕ)
    → h < max_bytecode_sz
    → ((i : ℕ) → i < max_bytecode_sz → q' (base + i) ≡ q (base + i))
    → window q' base h k ≡ window q base h k
window_ext q q' base h zero hh same = refl
window_ext q q' base h (suc k) hh same =
    ap₂ ◌∷◌ (same h hh) (window_ext q q' base ((h + 1) % max_bytecode_sz) k (omega arith) same)

-- Writing just behind a window that does not fill the ring adds the packet at its end.
pub window_snoc :
    (q q' : Memory Packet) (base h k t : ℕ) (v : Packet)
    → h < max_bytecode_sz
    → k < max_bytecode_sz
    → t ≡ (h + k) % max_bytecode_sz
    → q' (base + t) ≡ v
    → ((i : ℕ) → i < max_bytecode_sz → t ≢ i → q' (base + i) ≡ q (base + i))
    → window q' base h (suc k) ≡ window q base h k ++ (v ∷ [])
window_snoc q q' base h zero t v hh hk e new same =
    ap (λ p. p ∷ []) (ap (λ i. q' (base + i)) (omega arith) ∙ new)
window_snoc q q' base h (suc k) t v hh hk e new same = ap₂ ◌∷◌ (same h hh (omega arith)) (
    window_snoc q q' base ((h + 1) % max_bytecode_sz) k t v (omega arith) (omega arith)
      (omega arith) new same)

abbrev pub size : ℕ → ℕ → Memory Packet → ℕ → ℕ
size a b q n = count (q_get_head_index a b q n) (q_get_tail_index a b q n) (q (a * n + b)).y

module _ (a b : ℕ) (q : Memory Packet) (n : ℕ) (ok : IsValid a b q n) where
  pub size-le : size a b q n ≤ max_bytecode_sz
  unfolding count
  size-le = ground (arith, ok.head_in, ok.tail_in)

  -- A queue is full exactly when it holds MAX_BYTECODE_SZ packets, and empty when it holds none.
  pub size-full : q_is_full a b q n ≡ true → size a b q n ≡ max_bytecode_sz
  unfolding count q_is_full q_last_op_is_write
  size-full h = ground (arith)

  pub size-not_full : q_is_full a b q n ≡ false → size a b q n < max_bytecode_sz
  unfolding count q_is_full q_last_op_is_write
  size-not_full h = ground (arith, ok.head_in, ok.tail_in, ok.last_op)

  pub size-empty : q_is_empty a b q n ≡ true → size a b q n ≡ 0
  unfolding count q_is_empty q_last_op_is_read
  size-empty h = ground (arith)

  pub size-not_empty : q_is_empty a b q n ≡ false → 0 < size a b q n
  unfolding count q_is_empty q_last_op_is_read
  size-not_empty h = ground (arith, ok.head_in, ok.tail_in, ok.last_op)

module _ (h t op : ℕ) (hh : h < max_bytecode_sz) (ht : t < max_bytecode_sz) (ho : op < 2) where
  pub count_write :
      count h t op < max_bytecode_sz
      → (count h ((t + 1) % max_bytecode_sz) write ≡ suc (count h t op))
        × (t ≡ (h + count h t op) % max_bytecode_sz)
  unfolding count
  count_write k = (ground arith, ground arith)

  pub count_read : 0 < count h t op → count h t op ≡ suc (count ((h + 1) % max_bytecode_sz) t read)
  unfolding count
  count_read k = ground arith
