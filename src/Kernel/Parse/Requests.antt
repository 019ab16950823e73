-- ===== src/Kernel/Parse/Requests.antt =====
-- The packets that `parse_subtask` sends.
use mathlib.Core.Path.{subst}
use native.Mathlib.Decide.{ℕ_discrete}
use native.Mathlib.Nat.{mod-lt}
use ocl_gprm.Base.{
  ℕ, zero, suc, ◌+◌, ◌*◌, ◌<◌, ◌≡◌, ◌≢◌, inl, inr, refl, sym, ap, ◌∙◌, arith, Bool, Bool-cases,
  some, Ensures, Ensures-some, Ensures-if, ◌==◌, ==_self, ==_of_ne, if◌then◌else◌, u32, Memory,
  List, [], ◌∷◌, ◌++◌,
}
use ocl_gprm.Macros.{reference, max_bytecode_sz}
use ocl_gprm.WorkItem.{WorkItem}
use ocl_gprm.Packet.{Packet, pkt_create}
use ocl_gprm.Symbol.{symbol_get_address, symbol_get_nargs}
use ocl_gprm.Queue.{q_write}
use ocl_gprm.Queue.Spec.{push, push_all}
use ocl_gprm.Queue.Window.{contents}
use ocl_gprm.Queue.Fifo.{q_write_refines}
use ocl_gprm.Queue.Frame.{AllValid, q_write_frame, q_write-AllValid}
use ocl_gprm.Subtask.Table.{SubtaskTable}
use ocl_gprm.Subtask.Table.Stack.{IsStack, subt_pop_refines}
use ocl_gprm.Kernel.Parse.{destination, parse_arg, parse_args, parse_subtask}
use ocl_gprm.Kernel.Parse.Laws.{is_request, code_symbol}

-- The request for the argument `pos` of record `i`.
abbrev pub request : WorkItem → ℕ → ℕ → ℕ → Packet
request w i pos symbol = pkt_create w.uninit reference w.group_id pos i (symbol_get_address symbol)

-- What goes to unit `b` for an argument.
abbrev pub asked : WorkItem → ℕ → ℕ → ℕ → ℕ → ℕ → List Packet
asked w i n pos symbol b =
    if is_request symbol
    then (if destination symbol n == b then request w i pos symbol ∷ [] else [])
    else []

-- The requests to unit `b` for those of the `left` arguments from `pos` on that have to be computed.
abbrev pub requests : WorkItem → ℕ → ℕ → (ℕ → ℕ) → ℕ → ℕ → ℕ → List Packet
requests w i n symbol b pos zero = []
requests w i n symbol b pos (suc left) =
    asked w i n pos (symbol pos) b ++ requests w i n symbol b (pos + 1) left

-- Unit `a` has put packets in its transfer queues, for unit `b` those of `sent b`, and nothing else has
-- changed.
pub record HasSent (a n : ℕ) (sent : ℕ → List Packet) (rq rq' : Memory Packet) : Type 0 where
  pub valid : AllValid rq' n
  pub own : (b : ℕ) → b < n → contents a b rq' n ≡ push_all (sent b) (contents a b rq n)
  pub others : (c b : ℕ) → c < n → b < n → a ≢ c → contents c b rq' n ≡ contents c b rq n

push_all-append : (vs us l : List Packet) → push_all (vs ++ us) l ≡ push_all us (push_all vs l)
push_all-append [] us l = refl
push_all-append (v ∷ vs) us l = push_all-append vs us (push v l).1

HasSent-none : (a n : ℕ) (rq : Memory Packet) → AllValid rq n → HasSent a n (λ b. []) rq rq
HasSent-none a n rq ok = record { valid = ok; own = λ b hb. refl; others = λ c b hc hb ne. refl }

HasSent-trans :
    (a n : ℕ) (sent later : ℕ → List Packet) {rq rq1 rq' : Memory Packet}
    → HasSent a n sent rq rq1
    → HasSent a n later rq1 rq'
    → HasSent a n (λ b. sent b ++ later b) rq rq'
HasSent-trans a n sent later {rq} s t = record {
  valid = t.valid;
  own = λ b hb.
      t.own b hb
      ∙ ap (push_all (later b)) (s.own b hb)
      ∙ sym (push_all-append (sent b) (later b) (contents a b rq n));
  others = λ c b hc hb ne. t.others c b hc hb ne ∙ s.others c b hc hb ne;
}

pub destination-lt : (n symbol : ℕ) → 0 < n → destination symbol n < n
unfolding destination
destination-lt n symbol h = mod-lt _ h

module _ (w : WorkItem) (i n : ℕ) (hg : w.group_id < n) where
  sent-queue :
      (pos symbol : ℕ) (rq : Memory Packet) (t : SubtaskTable)
      → (parse_arg w i n pos symbol rq t).0 ≡ (
          if is_request symbol
          then (q_write (request w i pos symbol) w.group_id (destination symbol n) rq n).1
          else rq)
  unfolding parse_arg
  sent-queue pos symbol rq t = ground arith

  pub q_write-HasSent :
      (p : Packet) (to : ℕ) (rq : Memory Packet)
      → to < n
      → AllValid rq n
      → HasSent w.group_id n
          (λ b. if to == b then p ∷ [] else [])
          rq
          (q_write p w.group_id to rq n).1
  q_write-HasSent p to rq ht ok = record {
    valid = q_write-AllValid p w.group_id to rq n hg ht ok;
    own = λ b hb. elim (ℕ_discrete to b) [
      | yes e ↦
          rw (sym e, ==_self to)
            (ap (λ (r : Bool × List Packet). r.1)
              (q_write_refines w.group_id to rq n hg ht (ok w.group_id to hg ht) p).0)
      | no ne ↦ rw (==_of_ne to b ne) (
          (q_write_frame w.group_id to w.group_id b n hg ht hg hb (inr ne) rq
            (ok w.group_id to hg ht) (ok w.group_id b hg hb) p).0)
    ];
    others = λ c b hc hb ne.
        (q_write_frame w.group_id to c b n hg ht hc hb (inl ne) rq (ok w.group_id to hg ht)
          (ok c b hc hb) p).0;
  }

  parse_arg-HasSent :
      (pos symbol : ℕ) (rq : Memory Packet) (t : SubtaskTable)
      → AllValid rq n
      → HasSent w.group_id n (λ b. asked w i n pos symbol b) rq (parse_arg w i n pos symbol rq t).0
  parse_arg-HasSent pos symbol rq t ok = elim (Bool-cases (is_request symbol)) [
    | inl e ↦
        subst (HasSent w.group_id n (λ b. asked w i n pos symbol b) rq)
          (sym (sent-queue pos symbol rq t))
          (rw e (
            q_write-HasSent (request w i pos symbol) (destination symbol n) rq
              (destination-lt n symbol (omega arith)) ok))
    | inr e ↦
        subst (HasSent w.group_id n (λ b. asked w i n pos symbol b) rq)
          (sym (sent-queue pos symbol rq t)) (rw e (HasSent-none w.group_id n rq ok))
  ]

  pub parse_args-HasSent :
      (c_store : Memory ℕ) (address left pos : ℕ) (rq : Memory Packet) (t : SubtaskTable)
      → AllValid rq n
      → HasSent w.group_id n
          (λ b. requests w i n (code_symbol c_store address) b pos left)
          rq
          (parse_args left w i n c_store address pos rq t).0
  unfolding parse_args
  parse_args-HasSent c_store address zero pos rq t ok = HasSent-none w.group_id n rq ok
  parse_args-HasSent c_store address (suc left) pos rq t ok =
      let first = parse_arg-HasSent pos (code_symbol c_store address pos) rq t ok in
      HasSent-trans w.group_id n _
        (λ b. requests w i n (code_symbol c_store address) b (pos + 1) left) first
        (parse_args-HasSent c_store address left (pos + 1) _ _ first.valid)

-- The requests to unit `b` for all the arguments of a new record `i`, which is made from the code at
-- an address.
abbrev pub all_requests : WorkItem → ℕ → Memory ℕ → ℕ → ℕ → ℕ → List Packet
all_requests w n c_store address i b =
    requests w i n (code_symbol c_store address) b 0
      (symbol_get_nargs (c_store (u32 (address * max_bytecode_sz))))

module _ (w : WorkItem) (source arg_pos subtask address n : ℕ) (c_store : Memory ℕ)
    (rq : Memory Packet) (t : SubtaskTable) (hg : w.group_id < n) (ok : AllValid rq n)
    (stack : IsStack t) where
  sent-Ensures :
      Ensures
        (λ r. HasSent w.group_id n (all_requests w n c_store address r.0) rq r.1)
        (parse_subtask w source arg_pos subtask address n c_store rq t)
  unfolding parse_subtask
  sent-Ensures = elim (subt_pop_refines t stack) [
    | inl (nothing, failed) ↦ rw (failed, parse_subtask) tt
    | inr (i, s, popped, _, _, _) ↦
        rw (popped, parse_subtask)
          (Ensures-if (λ r. HasSent w.group_id n (all_requests w n c_store address r.0) rq r.1) _
            (parse_args-HasSent w i n hg c_store address _ 0 rq _ ok))
  ]

  -- Where all transfer queues are valid and the stack pointer is inside the stack, and
  -- `parse_subtask` on a compute unit makes a record, for code of at most 31 arguments, it pushes to
  -- the transfer queue to each unit, in the order of the arguments, one reference packet for each
  -- argument that is an unquoted reference to that unit's service node, made by `pkt_create` from
  -- the argument's position, of which the packet keeps the low 4 bits, the new record and the code
  -- address; these packets are lost for which there is no room. It changes no transfer queue of
  -- another unit, and all are valid afterwards.
  pub parse_subtask-HasSent :
      {i : ℕ} {rq' : Memory Packet} {t' : SubtaskTable}
      → parse_subtask w source arg_pos subtask address n c_store rq t ≡ some (i, rq', t')
      → HasSent w.group_id n (all_requests w n c_store address i) rq rq'
  parse_subtask-HasSent e =
      Ensures-some (λ r. HasSent w.group_id n (all_requests w n c_store address r.0) rq r.1)
        sent-Ensures e
