-- ===== src/Queue/Size.antt =====
-- What `q_size` returns.
use ocl_gprm.Base.{ℕ, ◌+◌, ◌≡◌, arith, Memory, if◌then◌else◌, ltb, length}
use ocl_gprm.Packet.{Packet}
use ocl_gprm.Queue.{q_get_head_index, q_get_tail_index, q_size}
use ocl_gprm.Queue.Ring.{IsValid, count}
use ocl_gprm.Queue.Window.{base, contents, size, length-window}

module _ (a b : ℕ) (q : Memory Packet) (n : ℕ) (ok : IsValid a b q n) where
  -- On a valid ring, `q_size` is the number of packets while they do not wrap round the end of the
  -- ring, and falls short by the tail index when they do.
  pub q_size_lem :
      let head = q_get_head_index a b q n in
      let tail = q_get_tail_index a b q n in
      q_size a b q n + (if ltb tail head then tail else 0) ≡ length (contents a b q n)
  unfolding q_size count
  q_size_lem =
      rw (length-window q (base a b n) (q_get_head_index a b q n) (size a b q n))
        (ground (arith, ok.head_in, ok.tail_in, ok.last_op))
