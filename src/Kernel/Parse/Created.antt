-- ===== src/Kernel/Parse/Created.antt =====
-- `parse_subtask` as a whole: when it returns, and the record that it makes.
use mathlib.Core.Path.{subst}
use native.Mathlib.Nat.{zero-add}
use ocl_gprm.Base.{
  ℕ, zero, suc, ◌+◌, ◌-◌, ◌*◌, ◌%◌, ◌≤◌, ◌<◌, ◌≡◌, ◌≢◌, ◌⊎◌, refl, sym, ap, ◌∙◌, arith, Memory,
  store_self, store_ne, u16, u32, inl, inr, none, some, [], ◌∷◌, Bool-cases, ltb,
}
use ocl_gprm.Macros.{max_bytecode_sz, subt_size}
use ocl_gprm.WorkItem.{WorkItem}
use ocl_gprm.Packet.{Packet}
use ocl_gprm.Symbol.{symbol_get_nargs, symbol_get_service}
use ocl_gprm.Symbol.Words.{get_nargs, get_service}
use ocl_gprm.Subtask.Record.{
  SubtaskRecord, sts_pending, subt_rec_get_return_as_pos, subt_rec_get_return_as_addr,
  subt_rec_set_service_id, subt_rec_set_code_addr, subt_rec_set_subt_status, subt_rec_set_nargs,
  subt_rec_set_nargs_absent, subt_rec_set_return_to, subt_rec_set_return_as_addr,
  subt_rec_set_return_as_pos,
}
use ocl_gprm.Subtask.Record.ReturnAs.{return_as-fields}
use ocl_gprm.Subtask.Table.{SubtaskTable, update_rec}
use ocl_gprm.Subtask.Table.Stack.{entries, available, IsStack, subt_pop_refines}
use ocl_gprm.Kernel.Parse.{new_record, parse_args, parse_subtask}
use ocl_gprm.Kernel.Parse.Laws.{given_count, code_symbol, ArgState, Parsed, parse_args-Parsed}

given_count-le : (symbol : ℕ → ℕ) (pos left : ℕ) → given_count symbol pos left ≤ left
given_count-le symbol pos zero = omega arith
given_count-le symbol pos (suc left) = ground (arith, given_count-le symbol (pos + 1) left)

-- The record before the loop over its arguments.
record Fresh (symbol source arg_pos subtask address : ℕ) (r : SubtaskRecord) : Type 0 where
  service : r.service_id ≡ symbol_get_service symbol
  code : r.code_addr ≡ u32 address
  count : r.nargs ≡ symbol_get_nargs symbol
  absent : r.nargs_absent ≡ symbol_get_nargs symbol
  return_to : r.return_to ≡ u16 source
  return_pos : subt_rec_get_return_as_pos r ≡ arg_pos % 256
  return_addr : subt_rec_get_return_as_addr r ≡ subtask % 256 * 256

new_record-Fresh :
    (symbol source arg_pos subtask address : ℕ) (r : SubtaskRecord)
    → Fresh symbol source arg_pos subtask address
        (new_record symbol source arg_pos subtask address r)
unfolding new_record subt_rec_set_service_id subt_rec_set_code_addr subt_rec_set_subt_status
    subt_rec_set_nargs subt_rec_set_nargs_absent subt_rec_set_return_to subt_rec_set_return_as_addr
    subt_rec_set_return_as_pos subt_rec_get_return_as_addr subt_rec_get_return_as_pos
new_record-Fresh symbol source arg_pos subtask address r =
    let kept = return_as-fields r subtask arg_pos in
    record {
      service = omega (arith, get_service symbol);
      code = refl;
      count = omega (arith, get_nargs symbol);
      absent = omega (arith, get_nargs symbol);
      return_to = refl;
      return_pos = kept.0;
      return_addr = kept.1;
    }

-- `t'` has a new record `i`, made from the code at `address` for the argument `arg_pos` of the
-- record `subtask` of compute unit `source`; `t` is the table before.
pub record Created (c_store : Memory ℕ) (source arg_pos subtask address i : ℕ)
    (before : Memory SubtaskRecord) (t' : SubtaskTable) : Type 0 where
  pub others : (j : ℕ) → i ≢ j → t'.recs j ≡ before j
  pub service :
      (t'.recs i).service_id ≡ symbol_get_service (c_store (u32 (address * max_bytecode_sz)))
  pub code : (t'.recs i).code_addr ≡ u32 address
  pub status : (t'.recs i).subt_status ≡ sts_pending
  pub count : (t'.recs i).nargs ≡ symbol_get_nargs (c_store (u32 (address * max_bytecode_sz)))
  pub absent :
      (t'.recs i).nargs_absent + given_count (code_symbol c_store address) 0 (t'.recs i).nargs
      ≡ (t'.recs i).nargs
  pub args :
      (k : ℕ)
      → k < (t'.recs i).nargs
      → ArgState (code_symbol c_store address k) ((t'.recs i).args k) ((t'.recs i).arg_status k)
  pub return_to : (t'.recs i).return_to ≡ u16 source
  pub return_pos : subt_rec_get_return_as_pos (t'.recs i) ≡ arg_pos % 256
  pub return_addr : subt_rec_get_return_as_addr (t'.recs i) ≡ subtask % 256 * 256

module _ (w : WorkItem) (source arg_pos subtask address n : ℕ) (c_store : Memory ℕ)
    (rq : Memory Packet) where
  abbrev head_symbol : ℕ
  head_symbol = c_store (u32 (address * max_bytecode_sz))

  -- The table with the fresh record, before the loop.
  abbrev prepared : ℕ → SubtaskTable → SubtaskTable
  prepared i t = update_rec i (new_record head_symbol source arg_pos subtask address) t

  abbrev looped : ℕ → SubtaskTable → Memory Packet × SubtaskTable
  looped i t = parse_args (symbol_get_nargs head_symbol) w i n c_store address 0 rq (prepared i t)

  abbrev finished : ℕ → SubtaskTable → SubtaskTable
  finished i t = update_rec i (λ r. subt_rec_set_subt_status r sts_pending) (looped i t).1

  prepared-Fresh :
      (i : ℕ) (t : SubtaskTable)
      → Fresh head_symbol source arg_pos subtask address ((prepared i t).recs i)
  prepared-Fresh i t =
      rw (store_self t.recs i (new_record head_symbol source arg_pos subtask address (t.recs i)))
        (new_record-Fresh head_symbol source arg_pos subtask address (t.recs i))

  looped-Parsed :
      (i : ℕ) (t : SubtaskTable)
      → Parsed i 0
          (symbol_get_nargs head_symbol)
          (given_count (code_symbol c_store address) 0 (symbol_get_nargs head_symbol))
          (code_symbol c_store address)
          (prepared i t)
          (looped i t).1
  looped-Parsed i t =
      let fresh = prepared-Fresh i t in
      let symbol = code_symbol c_store address in
      subst
        (λ hi.
          Parsed i 0 hi (given_count symbol 0 (symbol_get_nargs head_symbol)) symbol (prepared i t)
            (looped i t).1)
        (zero-add (symbol_get_nargs head_symbol))
        (parse_args-Parsed (symbol_get_nargs head_symbol) w i n c_store address 0 rq (prepared i t)
          (omega (arith, fresh.absent, given_count-le symbol 0 (symbol_get_nargs head_symbol)))
          (omega (arith, fresh.absent, get_nargs head_symbol)))

  -- Marking the record as pending changes none of its other fields.
  finished-rec :
      (i : ℕ) (t : SubtaskTable)
      → (finished i t).recs i ≡ subt_rec_set_subt_status ((looped i t).1.recs i) sts_pending
  finished-rec i t = store_self _ i _

  finished-Created :
      (i : ℕ) (t : SubtaskTable)
      → Created c_store source arg_pos subtask address i t.recs (finished i t)
  unfolding subt_rec_set_subt_status subt_rec_get_return_as_pos subt_rec_get_return_as_addr
  finished-Created i t =
      let fresh = prepared-Fresh i t in
      let loop = looped-Parsed i t in
      let count = loop.same_nargs ∙ fresh.count in
      record {
        others = λ j ne. store_ne _ i j _ ne ∙ loop.others j ne ∙ store_ne _ i j _ ne;
        service = rw (finished-rec i t) (loop.same_service ∙ fresh.service);
        code = rw (finished-rec i t) (loop.same_code ∙ fresh.code);
        status = rw (finished-rec i t) refl;
        count = rw (finished-rec i t) count;
        absent = rw (finished-rec i t, count) (loop.absent ∙ fresh.absent);
        args = rw (finished-rec i t, count) (λ k h. loop.parsed k (omega arith) h);
        return_to = rw (finished-rec i t) (loop.same_return_to ∙ fresh.return_to);
        return_pos = rw (finished-rec i t, loop.same_return_as) fresh.return_pos;
        return_addr = rw (finished-rec i t, loop.same_return_as) fresh.return_addr;
      }

  finished-available : (i : ℕ) (t : SubtaskTable) → (finished i t).av_recs ≡ t.av_recs
  finished-available i t = (looped-Parsed i t).stack

  -- For a table whose stack pointer is inside the stack, `parse_subtask` has no result exactly where
  -- it waits for ever, as no record is available, or where the code has more arguments than the 31
  -- that a record has room for, and it writes behind their array. Otherwise it takes the next
  -- available record and makes it the new subtask's: with the service, code address and argument
  -- count of its code, every argument stored that is given there, the count of the absent ones, and
  -- where the result is to go; it changes no other record.
  pub parse_subtask-Created :
      (t : SubtaskTable)
      → IsStack t
      → (((available t ≡ []) ⊎ (max_bytecode_sz ≤ symbol_get_nargs head_symbol))
          × (parse_subtask w source arg_pos subtask address n c_store rq t ≡ none))
        ⊎ ((i : ℕ) × (rq' : Memory Packet) × (t' : SubtaskTable) × (parse_subtask w source arg_pos
                subtask address n c_store rq t
              ≡ some (i, rq', t'))
            × (available t ≡ i ∷ available t')
            × IsStack t'
            × (symbol_get_nargs head_symbol < max_bytecode_sz)
            × Created c_store source arg_pos subtask address i t.recs t')
  unfolding parse_subtask
  parse_subtask-Created t ok = elim (subt_pop_refines t ok) [
    | inl (nothing, failed) ↦ inl (inl nothing, rw (failed, parse_subtask))
    | inr (i, s, popped, left, same, stack) ↦
        elim (Bool-cases (ltb (max_bytecode_sz - 1) (symbol_get_nargs head_symbol))) [
          | inl e ↦ inl (inr (ground arith), rw (popped, parse_subtask, e) refl)
          | inr e ↦ inr (
            i,
            (looped i s).0,
            finished i s,
            rw (popped, parse_subtask, e) refl,
            left
                ∙ ap (λ m. i ∷ entries m (m 0) (suc subt_size - m 0))
                    (sym (finished-available i s)),
            subst (λ m. (1 ≤ m 0) × (m 0 ≤ suc subt_size)) (sym (finished-available i s)) stack,
            ground arith,
            subst (λ m. Created c_store source arg_pos subtask address i m (finished i s)) same
                (finished-Created i s),
          )
        ]
  ]
