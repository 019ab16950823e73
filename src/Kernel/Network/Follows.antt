-- ===== src/Kernel/Network/Follows.antt =====
-- The table of a new subtask and the end of `parse_pkt`, beside the network.
use ocl_gprm.Base.{
  ℕ, zero, suc, ◌+◌, ◌<◌, ◌≡◌, refl, ap, ◌∙◌, arith, Bool, true, false, ◌==◌, if◌then◌else◌, ap₂,
  Memory,
}
use ocl_gprm.WorkItem.{WorkItem}
use ocl_gprm.Packet.{Packet}
use ocl_gprm.Service.{service_compute}
use ocl_gprm.Subtask.Table.{SubtaskTable, subt_get_rec, subt_is_ready}
use ocl_gprm.Kernel.Parse.{parse_arg, parse_args}
use ocl_gprm.Kernel.Parse.Laws.{code_symbol}
use ocl_gprm.Kernel.{Global, send_result}
use ocl_gprm.Kernel.Network.{Packets, Own, take_arg, take_args, answer, finish}
use ocl_gprm.Kernel.Network.Shows.{Shows, q_write-Shows}

-- The unit's transfer queues show what it has sent, and the rest is the same.
pub record Follows (n : ℕ) (g : Global) (own : Own) : Type 0 where
  pub sent : Shows n g.rq own.sent
  pub table : g.table ≡ own.table
  pub mem : g.mem ≡ own.mem

-- The arguments' part of the table does not depend on the queues.
parse_arg-table :
    (w : WorkItem) (i n pos symbol : ℕ) (rq : Memory Packet) (t : SubtaskTable)
    → (parse_arg w i n pos symbol rq t).1 ≡ take_arg i pos symbol t
unfolding parse_arg
parse_arg-table w i n pos symbol rq t = ground arith

pub parse_args-table :
    (left : ℕ) (w : WorkItem) (i n : ℕ) (c_store : Memory ℕ) (address pos : ℕ) (rq : Memory Packet)
    (t : SubtaskTable)
    → (parse_args left w i n c_store address pos rq t).1
      ≡ take_args left i (code_symbol c_store address) pos t
unfolding parse_args
parse_args-table zero w i n c_store address pos rq t = refl
parse_args-table (suc left) w i n c_store address pos rq t =
    parse_args-table left w i n c_store address (pos + 1) _ _
    ∙ ap (take_args left i (code_symbol c_store address) (pos + 1))
        (parse_arg-table w i n pos (code_symbol c_store address pos) rq t)

-- The same branch on both sides.
if-Follows :
    (n : ℕ) (b : Bool) {x y : Global} {x' y' : Own}
    → (b ≡ true → Follows n x x')
    → (b ≡ false → Follows n y y')
    → Follows n (if b then x else y) (if b then x' else y')
if-Follows n true h k = h refl
if-Follows n false h k = k refl

abbrev pub seen : Global → Packets → Own
seen g net = record { sent = net; table = g.table; mem = g.mem }

pub seen-Follows : (n : ℕ) {g : Global} {own : Own} → Follows n g own → seen g own.sent ≡ own
seen-Follows n {g} {own} f =
    ap₂ (λ t m. record { sent = own.sent; table = t; mem = m }) f.table f.mem

-- The end of both branches of `parse_pkt`.
abbrev pub concluded : WorkItem → ℕ → ℕ → ℕ → ℕ → ℕ → Bool → Global → Global
concluded w n to pos addr i silent g =
    let (result, mem) = service_compute w (subt_get_rec i g.table) g.mem in
    let computed : Global = record g { mem = mem } in
    if subt_is_ready i g.table
    then (if w.local_id == 0
        then (if silent then computed else send_result w n to pos addr result i computed)
        else computed)
    else g

module _ (w : WorkItem) (n : ℕ) (hg : w.group_id < n) where
  answer-Follows :
      (to pos addr result i : ℕ) (g : Global) (net : Packets)
      → to < n
      → Shows n g.rq net
      → Follows n
          (send_result w n to pos addr result i g)
          (answer w to pos addr result i (seen g net))
  unfolding send_result answer
  answer-Follows to pos addr result i g net h shown = record {
    sent = q_write-Shows w n hg to _ h shown;
    table = refl;
    mem = refl;
  }

  pub finish-Follows :
      (to pos addr i : ℕ) (silent : Bool) (g : Global) (net : Packets)
      → (subt_is_ready i g.table ≡ true → silent ≡ false → to < n)
      → Shows n g.rq net
      → Follows n
          (concluded w n to pos addr i silent g)
          (finish w to pos addr i silent (seen g net))
  unfolding finish
  finish-Follows to pos addr i silent g net to_unit shown =
      let computed : Global = record g {
        mem = (service_compute w (subt_get_rec i g.table) g.mem).1;
      } in
      let same : Follows n computed (seen computed net) = record {
        sent = shown;
        table = refl;
        mem = refl;
      } in
      if-Follows n (subt_is_ready i g.table)
        (λ ready.
          if-Follows n (w.local_id == 0)
            (λ _.
              if-Follows n silent (λ _. same)
                (λ loud. answer-Follows to pos addr _ i computed net (to_unit ready loud) shown))
            (λ _. same))
        (λ _. record { sent = shown; table = refl; mem = refl })
