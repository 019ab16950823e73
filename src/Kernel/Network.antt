-- ===== src/Kernel/Network.antt =====
-- What kernels/VM.cl `vm` promises, without ring buffers, fuel and loops over queues: the packets
-- between two compute units are a list, a unit in state READ handles all that wait for it one after
-- another, and in state WRITE all that it has sent are moved at once.
pub mod Shows
pub mod Follows
pub mod Handling
pub mod Reading
pub mod Quiet
pub mod Launching
pub mod Read
use ocl_gprm.Base.{
  ℕ, zero, suc, ◌+◌, ◌*◌, Bool, true, false, ◌&&◌, Option, none, some, List, [], ◌∷◌, ◌++◌, ◌==◌,
  ltb, ◌-◌, if◌then◌else◌, u32, Memory, store,
}
use ocl_gprm.Macros.{return_address, reference, data_packet, max_bytecode_sz, subt_size}
use ocl_gprm.WorkItem.{WorkItem}
use ocl_gprm.Packet.{
  Packet, pkt_create, pkt_get_type, pkt_get_source, pkt_get_arg_pos, pkt_get_sub, pkt_get_payload,
}
use ocl_gprm.Symbol.Mask
use ocl_gprm.Symbol.{symbol_get_kind, symbol_get_nargs, symbol_is_quoted}
use ocl_gprm.Queue.Spec.{push_all}
use ocl_gprm.Subtask.Record.{
  sts_pending, ds_absent, ds_requested, subt_rec_get_return_to, subt_rec_get_return_as_addr,
  subt_rec_get_return_as_pos, subt_rec_set_arg_status, subt_rec_set_subt_status,
}
use ocl_gprm.Subtask.Table.{
  SubtaskTable, update_rec, subt_pop, subt_get_rec, subt_store_symbol, subt_is_ready, subt_cleanup,
}
use ocl_gprm.Service.{service_compute}
use ocl_gprm.Kernel.{State, complete, reading, writing, barrier}
use ocl_gprm.Kernel.Parse.{new_record}
use ocl_gprm.Kernel.Parse.Laws.{is_given, is_request, code_symbol}
use ocl_gprm.Kernel.Parse.Requests.{all_requests}

-- For two units the packets that the first has sent to the second, or has received from it, the oldest
-- first.
abbrev pub Packets : Type 0
Packets = ℕ → ℕ → List Packet

-- Unit `a` sends to each unit `b` the packets of `sent b`, as far as there is room.
abbrev pub deliver : ℕ → (ℕ → List Packet) → Packets → Packets
deliver a sent net c b = if a == c then push_all (sent b) (net c b) else net c b

abbrev pub only_to : ℕ → Packet → ℕ → List Packet
only_to to p b = if to == b then p ∷ [] else []

abbrev pub without : ℕ → Packets → Packets
without a net c b = if a == c then [] else net c b

-- Unit `a` receives from each unit what it has sent to it, as far as there is room.
abbrev pub receive : ℕ → Packets → Packets → Packets
receive a sent received c b = if a == b then push_all (sent a c) (received c b) else received c b

-- What a unit works on, and the whole device.
pub record Own : Type 0 where
  pub sent : Packets
  pub table : SubtaskTable
  pub mem : Memory ℕ

pub record Network : Type 0 where
  pub received : Packets
  pub sent : Packets
  pub state : State
  pub tables : Memory SubtaskTable
  pub mem : Memory ℕ

-- The record's arguments from the code's symbols: given, requested, or absent.
abbrev pub take_arg : ℕ → ℕ → ℕ → SubtaskTable → SubtaskTable
take_arg i pos symbol t =
    let t1 = update_rec i (λ r. subt_rec_set_arg_status r pos ds_absent) t in
    if is_given symbol
    then subt_store_symbol symbol pos i t1
    else if is_request symbol
    then update_rec i (λ r. subt_rec_set_arg_status r pos ds_requested) t1
    else t1

abbrev pub take_args : ℕ → ℕ → (ℕ → ℕ) → ℕ → SubtaskTable → SubtaskTable
take_args zero i symbol pos t = t
take_args (suc left) i symbol pos t =
    take_args left i symbol (pos + 1) (take_arg i pos (symbol pos) t)

-- A subtask is made of the code at an address, and all its requests are sent. `none` stands for no
-- end, and for more arguments than a record has room for.
unfoldable pub create : WorkItem → Packet → ℕ → Memory ℕ → Own → Option (ℕ × Own)
create w p n c_store own = elim (subt_pop own.table) [
  | none ↦ none
  | some (i, t1) ↦
      let address = pkt_get_payload p in
      let symbol = c_store (u32 (address * max_bytecode_sz)) in
      let made = new_record symbol (pkt_get_source p) (pkt_get_arg_pos p) (pkt_get_sub p) address in
      let t2 = update_rec i made t1 in
      let t3 = take_args (symbol_get_nargs symbol) i (code_symbol c_store address) 0 t2 in
      if ltb (max_bytecode_sz - 1) (symbol_get_nargs symbol)
      then none
      else some (
        i,
        record own {
          sent = deliver w.group_id (λ b. all_requests w n c_store address i b) own.sent;
          table = update_rec i (λ r. subt_rec_set_subt_status r sts_pending) t3;
        },
      )
]

-- The result of record `i` is sent to a unit, and the record is free again.
unfoldable pub answer : WorkItem → ℕ → ℕ → ℕ → ℕ → ℕ → Own → Own
answer w to pos addr result i own =
    let p = pkt_create w.uninit data_packet w.group_id pos addr (u32 result) in
    record own {
      sent = deliver w.group_id (only_to to p) own.sent;
      table = subt_cleanup i own.table;
    }

-- The service of record `i`, where it is ready. The first thread sends the result, except to the host.
unfoldable pub finish : WorkItem → ℕ → ℕ → ℕ → ℕ → Bool → Own → Own
finish w to pos addr i silent own =
    let (result, mem) = service_compute w (subt_get_rec i own.table) own.mem in
    let computed = record own { mem = mem } in
    if subt_is_ready i own.table
    then (if w.local_id == 0
        then (if silent then computed else answer w to pos addr result i computed)
        else computed)
    else own

unfoldable pub handle_reference : WorkItem → Packet → ℕ → Memory ℕ → Own → Option Own
handle_reference w p n c_store own = elim (create w p n c_store own) [
  | none ↦ none
  | some (i, own') ↦
      some (finish w (pkt_get_source p) (pkt_get_arg_pos p) (pkt_get_sub p) i false own')
]

unfoldable pub handle_data : WorkItem → Packet → Own → Own
handle_data w p own =
    let i = pkt_get_sub p in
    let symbol = Mask.symbol_kp_zero + pkt_get_payload p in
    let stored = subt_store_symbol symbol (pkt_get_arg_pos p) i own.table in
    let rec = subt_get_rec i stored in
    let to = subt_rec_get_return_to rec in
    finish w to (subt_rec_get_return_as_pos rec) (subt_rec_get_return_as_addr rec) i
      (to == return_address) (record own { table = stored })

unfoldable pub handle : WorkItem → Packet → ℕ → Memory ℕ → Own → Option Own
handle w p n c_store own =
    if pkt_get_type p == reference
    then handle_reference w p n c_store own
    else if pkt_get_type p == data_packet
    then some (handle_data w p own)
    else some own

-- A unit of more than one work-item does not get past the first packet while one of them runs alone.
unfoldable pub handle_in_step : WorkItem → Packet → ℕ → Memory ℕ → Own → Option Own
handle_in_step w p n c_store own = elim (handle w p n c_store own) [
  | none ↦ none
  | some own' ↦ barrier w own'
]

unfoldable pub handle_all : WorkItem → ℕ → Memory ℕ → List Packet → Own → Option Own
handle_all w n c_store [] own = some own
handle_all w n c_store (p ∷ ps) own = elim (handle_in_step w p n c_store own) [
  | none ↦ none
  | some own' ↦ handle_all w n c_store ps own'
]

-- What waits for unit `a` from the `left` units from `b` on.
abbrev pub arrived : ℕ → ℕ → ℕ → Packets → List Packet
arrived a zero b net = []
arrived a (suc left) b net = net a b ++ arrived a left (b + 1) net

abbrev pub all_below : ℕ → (ℕ → Bool) → Bool
all_below zero f = true
all_below (suc k) f = all_below k f && f k

abbrev pub is_nil : List Packet → Bool
is_nil [] = true
is_nil (p ∷ ps) = false

abbrev pub none_left : ℕ → Packets → Packets → Bool
none_left n received sent =
    all_below n λ a. all_below n λ b. is_nil (received a b) && is_nil (sent a b)

-- In state READ a unit handles all that has arrived.
unfoldable pub read_unit : WorkItem → ℕ → Memory ℕ → Network → Option Network
read_unit w n c_store s =
    let own : Own = record { sent = s.sent; table = s.tables w.group_id; mem = s.mem } in
    elim (handle_all w n c_store (arrived w.group_id n 0 s.received) own) [
      | none ↦ none
      | some own' ↦ some (record {
        received = without w.group_id s.received;
        sent = own'.sent;
        state = s.state;
        tables = store s.tables w.group_id own'.table;
        mem = own'.mem;
      })
    ]

-- In state WRITE all that it has sent is received.
unfoldable pub write_unit : WorkItem → ℕ → Network → Network
write_unit w n s =
    let received = receive w.group_id s.sent s.received in
    let sent = without w.group_id s.sent in
    record s {
      received = received;
      sent = sent;
      state = if none_left n received sent then complete else s.state;
    }

abbrev pub turn_in : State → WorkItem → ℕ → Memory ℕ → Network → Option Network
turn_in complete w n c_store s = some s
turn_in reading w n c_store s = read_unit w n c_store s
turn_in writing w n c_store s = some (if w.local_id == 0 then write_unit w n s else s)

-- The turn of one work-item, and of all of a launch.
unfoldable pub turn : WorkItem → ℕ → Memory ℕ → Network → Option Network
turn w n c_store s = turn_in s.state w n c_store s

unfoldable pub turns : List WorkItem → ℕ → Memory ℕ → Network → Option Network
turns [] n c_store s = some s
turns (w ∷ ws) n c_store s = elim (turn w n c_store s) [
  | none ↦ none
  | some s' ↦ turns ws n c_store s'
]
