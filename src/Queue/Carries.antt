-- ===== src/Queue/Carries.antt =====
-- Buffers all of whose packets have a property.
use native.Mathlib.Decide.{ℕ_discrete}
use mathlib.Core.Path.{subst}
use ocl_gprm.Base.Grid.{pair_cases}
use ocl_gprm.Base.{
  ℕ, ◌<◌, ◌≡◌, inl, inr, sym, ap, arith, false, Bool-cases, Memory, List, [], ◌∷◌, All, All-append,
  length, ◌==◌,
}
use ocl_gprm.Macros.{max_bytecode_sz}
use ocl_gprm.Packet.{Packet}
use ocl_gprm.Queue.{q_write, q_is_empty}
use ocl_gprm.Queue.Spec.{push, push_all}
use ocl_gprm.Queue.Ring.{read_packet, read_buffer}
use ocl_gprm.Queue.Window.{contents}
use ocl_gprm.Queue.Fifo.{q_write_refines, read-contents}
use ocl_gprm.Queue.Frame.{
  AllValid, q_write_frame, q_write-AllValid, read_buffer_frame, read_buffer-AllValid,
}
use ocl_gprm.Queue.Transfer.Laws.{Moved}

-- Every queue between two of the `n` compute units is valid, and every packet in it has the property.
pub record Carries (P : Packet → Type 0) (q : Memory Packet) (n : ℕ) : Type 0 where
  pub valid : AllValid q n
  pub packets : (a b : ℕ) → a < n → b < n → All P (contents a b q n)

module _ (P : Packet → Type 0) where
  push-All : (v : Packet) (l : List Packet) → P v → All P l → All P (push v l).1
  unfolding push
  push-All v l p h = elim (Bool-cases (length l == max_bytecode_sz)) [
    | inl e ↦ rw (e) h
    | inr e ↦ rw (e) (All-append P l (v ∷ []) h (p, tt))
  ]

  push_all-All : (vs l : List Packet) → All P vs → All P l → All P (push_all vs l)
  push_all-All [] l p h = h
  push_all-All (v ∷ vs) l p h = push_all-All vs (push v l).1 p.1 (push-All v l p.0 h)

  module _ (n : ℕ) where
    pub q_write-Carries :
        (v : Packet) (a b : ℕ) (q : Memory Packet)
        → a < n
        → b < n
        → P v
        → Carries P q n
        → Carries P (q_write v a b q n).1 n
    q_write-Carries v a b q ha hb p ok = record {
      valid = q_write-AllValid v a b q n ha hb ok.valid;
      packets = λ c d hc hd. elim (pair_cases a b c d) [
        | inl (e, f) ↦
            rw
              (sym e, sym f, ap (λ r. r.1) (q_write_refines a b q n ha hb (ok.valid a b ha hb) v).0)
              (push-All v (contents a b q n) p (ok.packets a b ha hb))
        | inr ne ↦
            subst (All P)
              (sym
                (q_write_frame a b c d n ha hb hc hd ne q (ok.valid a b ha hb) (ok.valid c d hc hd)
                  v).0)
              (ok.packets c d hc hd)
      ];
    }

    module _ (a b : ℕ) (q : Memory Packet) (ha : a < n) (hb : b < n) (ok : Carries P q n)
        (some_left : q_is_empty a b q n ≡ false) where
      pub split-Carries : P (read_packet a b q n) × All P (contents a b (read_buffer a b q n) n)
      split-Carries =
          subst (All P) (read-contents a b q n ha hb (ok.valid a b ha hb) some_left)
            (ok.packets a b ha hb)

      pub read_buffer-Carries : Carries P (read_buffer a b q n) n
      read_buffer-Carries = record {
        valid = read_buffer-AllValid a b q n ha hb ok.valid;
        packets = λ c d hc hd. elim (pair_cases a b c d) [
          | inl (e, f) ↦ rw (sym e, sym f) (split-Carries.1)
          | inr ne ↦
              subst (All P)
                (sym
                  (read_buffer_frame a b c d n ha hb hc hd ne q (ok.valid a b ha hb)
                    (ok.valid c d hc hd)).0)
                (ok.packets c d hc hd)
        ];
      }

    -- A transfer of unit `g`.
    pub Moved-Carries :
        (g : ℕ) {rq q rq' q' : Memory Packet}
        → g < n
        → Carries P rq n
        → Carries P q n
        → Moved g 0 n rq q rq' q'
        → Carries P rq' n × Carries P q' n
    Moved-Carries g {rq} {q} {rq'} {q'} hg ok_rq ok_q m = (
      record {
        valid = m.valid_rq;
        packets = λ c d hc hd. elim (ℕ_discrete g c) [
          | yes e ↦ rw (sym e, m.emptied d (omega arith) hd) tt
          | no ne ↦ subst (All P) (sym (m.other_rq c d hc hd (inl ne))) (ok_rq.packets c d hc hd)
        ];
      },
      record {
        valid = m.valid_q;
        packets = λ c d hc hd. elim (ℕ_discrete g d) [
          | yes e ↦
              rw (sym e, m.pushed c (omega arith) hc)
                (push_all-All (contents g c rq n) (contents c g q n) (ok_rq.packets g c hg hc)
                  (ok_q.packets c g hc hg))
          | no ne ↦ subst (All P) (sym (m.other_q c d hc hd (inl ne))) (ok_q.packets c d hc hd)
        ];
      },
    )
