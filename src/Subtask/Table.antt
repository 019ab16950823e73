-- ===== src/Subtask/Table.antt =====
-- include/SharedTypes.h `SubtaskTable` and kernels/VM.cl "Subtask Table Functions". The functions
-- work on the table of the compute unit that runs them, `subtask_list[get_group_id(0)]`.
pub mod Stack
pub mod Alloc
use ocl_gprm.Base.{
  ℕ, ◌+◌, ◌-◌, ◌%◌, ◌^◌, Bool, true, false, Option, none, some, ◌==◌, if◌then◌else◌, u32, Memory,
  store,
}
use ocl_gprm.Macros.{subt_size}
use ocl_gprm.Subtask.Record.{
  SubtaskRecord, ds_present, subt_rec_set_arg, subt_rec_set_arg_status, subt_rec_get_nargs_absent,
  subt_rec_set_nargs_absent,
}

-- `av_recs` is the stack of available records: its element 0 is the index of the top.
pub record SubtaskTable : Type 0 where
  pub recs : Memory SubtaskRecord
  pub av_recs : Memory ℕ

abbrev pub subt_get_rec : ℕ → SubtaskTable → SubtaskRecord
subt_get_rec i t = t.recs i

-- The table with the record at `i` replaced: what a setter does through `subt_get_rec`.
abbrev pub update_rec : ℕ → (SubtaskRecord → SubtaskRecord) → SubtaskTable → SubtaskTable
update_rec i f t = record t { recs = store t.recs i (f (t.recs i)) }

abbrev pub subt_top : SubtaskTable → ℕ
subt_top t = t.av_recs 0

unfoldable pub subt_set_top : SubtaskTable → ℕ → SubtaskTable
subt_set_top t i = record t { av_recs = store t.av_recs 0 i }

unfoldable pub subt_is_full : SubtaskTable → Bool
subt_is_full t = subt_top t == subt_size + 1

unfoldable pub subt_is_empty : SubtaskTable → Bool
subt_is_empty t = subt_top t == 1

unfoldable pub subt_push : ℕ → SubtaskTable → Bool × SubtaskTable
unfolding subt_is_empty subt_set_top
subt_push i t =
    let top = subt_top t in
    let t1 = record t { av_recs = store t.av_recs (top - 1) i } in
    if subt_is_empty t then (false, t) else (true, subt_set_top t1 (top - 1))

-- The index of an available record, and the table without it; `none` for a return of false.
unfoldable pub subt_pop : SubtaskTable → Option (ℕ × SubtaskTable)
unfolding subt_is_full subt_set_top
subt_pop t =
    let top = subt_top t in
    if subt_is_full t then none else some (t.av_recs top, subt_set_top t (top + 1))

unfoldable pub subt_cleanup : ℕ → SubtaskTable → SubtaskTable
unfolding subt_push
subt_cleanup i t = (subt_push i t).1

-- What `subt_store_symbol` does to the record. The count of absent arguments is decremented as a
-- `uint`, and stored as a byte.
unfoldable pub store_symbol : ℕ → ℕ → SubtaskRecord → SubtaskRecord
unfolding subt_rec_set_arg subt_rec_set_arg_status subt_rec_set_nargs_absent
store_symbol symbol arg_pos r =
    let r1 = subt_rec_set_arg r arg_pos symbol in
    let nargs_absent = u32 (subt_rec_get_nargs_absent r1 + 2 ^ 32 - 1) in
    let r2 = subt_rec_set_arg_status r1 arg_pos ds_present in
    subt_rec_set_nargs_absent r2 nargs_absent

unfoldable pub subt_store_symbol : ℕ → ℕ → ℕ → SubtaskTable → SubtaskTable
subt_store_symbol symbol arg_pos i t = update_rec i (store_symbol symbol arg_pos) t

unfoldable pub subt_is_ready : ℕ → SubtaskTable → Bool
subt_is_ready i t = subt_rec_get_nargs_absent (subt_get_rec i t) == 0
