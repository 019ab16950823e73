-- ===== src/Kernel/Parse/Laws.antt =====
-- What `parse_subtask` leaves in the new record.
use native.Mathlib.Decide.{dec_lt}
use native.Mathlib.Nat.{add-zero}
use ocl_gprm.Base.{
  ℕ, zero, suc, ◌+◌, ◌*◌, ◌≤◌, ◌<◌, ◌≡◌, ◌≢◌, refl, ◌∙◌, arith, Bool, true, false, ◌==◌,
  if◌then◌else◌, Memory, store, u32,
}
use ocl_gprm.Macros.{max_bytecode_sz}
use ocl_gprm.WorkItem.{WorkItem}
use ocl_gprm.Packet.{Packet}
use ocl_gprm.Symbol.Mask
use ocl_gprm.Symbol.{symbol_get_kind, symbol_is_quoted}
use ocl_gprm.Subtask.Record.{
  ds_absent, ds_present, ds_requested, subt_rec_set_arg_status, subt_rec_set_arg,
  subt_rec_set_nargs_absent,
}
use ocl_gprm.Subtask.Table.{SubtaskTable, store_symbol, subt_store_symbol}
use ocl_gprm.Kernel.Parse.{parse_arg, parse_args}

-- A quoted reference or a value is its own argument; an unquoted reference has to be computed.
abbrev pub is_given : ℕ → Bool
is_given s =
    if symbol_get_kind s == Mask.k_r then symbol_is_quoted s else symbol_get_kind s == Mask.k_b

abbrev pub is_request : ℕ → Bool
is_request s =
    if symbol_get_kind s == Mask.k_r then (if symbol_is_quoted s then false else true) else false

-- What stands for an argument with the symbol `s`.
abbrev pub ArgState : ℕ → ℕ → ℕ → Type 0
ArgState s arg status =
    (status ≡ (if is_given s then ds_present else if is_request s then ds_requested else ds_absent))
    × ((if is_given s then arg else s) ≡ s)

-- How many of the `left` arguments from `pos` on are given.
abbrev pub given_count : (ℕ → ℕ) → ℕ → ℕ → ℕ
given_count symbol pos zero = 0
given_count symbol pos (suc left) =
    (if is_given (symbol pos) then 1 else 0) + given_count symbol (pos + 1) left

-- The arguments from `lo` to `hi` of record `i` have been parsed, and nothing else has changed.
pub record Parsed (i lo hi given : ℕ) (symbol : ℕ → ℕ) (t t' : SubtaskTable) : Type 0 where
  pub others : (j : ℕ) → i ≢ j → t'.recs j ≡ t.recs j
  pub stack : t'.av_recs ≡ t.av_recs
  pub same_service : (t'.recs i).service_id ≡ (t.recs i).service_id
  pub same_code : (t'.recs i).code_addr ≡ (t.recs i).code_addr
  pub same_nargs : (t'.recs i).nargs ≡ (t.recs i).nargs
  pub same_status : (t'.recs i).subt_status ≡ (t.recs i).subt_status
  pub same_return_to : (t'.recs i).return_to ≡ (t.recs i).return_to
  pub same_return_as : (t'.recs i).return_as ≡ (t.recs i).return_as
  pub absent : (t'.recs i).nargs_absent + given ≡ (t.recs i).nargs_absent
  pub parsed :
      (k : ℕ)
      → lo ≤ k
      → k < hi
      → ArgState (symbol k) ((t'.recs i).args k) ((t'.recs i).arg_status k)
  pub before :
      (k : ℕ)
      → k < lo
      → ((t'.recs i).args k ≡ (t.recs i).args k)
        × ((t'.recs i).arg_status k ≡ (t.recs i).arg_status k)

module _ (w : WorkItem) (i n : ℕ) where
  -- One round of the loop.
  parse_arg-Parsed :
      (pos : ℕ) (symbol : ℕ → ℕ) (rq : Memory Packet) (t : SubtaskTable)
      → (if is_given (symbol pos) then 1 else 0) ≤ (t.recs i).nargs_absent
      → (t.recs i).nargs_absent < 256
      → Parsed i pos
          (pos + 1)
          (if is_given (symbol pos) then 1 else 0)
          symbol
          t
          (parse_arg w i n pos (symbol pos) rq t).1
  unfolding parse_arg subt_store_symbol store_symbol subt_rec_set_arg_status subt_rec_set_arg
      subt_rec_set_nargs_absent store
  parse_arg-Parsed pos symbol rq t some_left byte = record {
    others = λ j ne. ground arith;
    stack = ground arith;
    same_service = ground arith;
    same_code = ground arith;
    same_nargs = ground arith;
    same_status = ground arith;
    same_return_to = ground arith;
    same_return_as = ground arith;
    absent = ground arith;
    parsed = λ k p r. let e : k ≡ pos = omega arith in rw e (ground arith, ground arith);
    before = λ k p. (ground arith, ground arith);
  }

-- Two parts of the loop, one after the other.
Parsed-trans :
    {i lo mid hi g h : ℕ} {symbol : ℕ → ℕ} {t t1 t' : SubtaskTable}
    → lo ≤ mid
    → mid ≤ hi
    → Parsed i lo mid g symbol t t1
    → Parsed i mid hi h symbol t1 t'
    → Parsed i lo hi (g + h) symbol t t'
Parsed-trans {mid} lm mh a b = record {
  others = λ j ne. b.others j ne ∙ a.others j ne;
  stack = b.stack ∙ a.stack;
  same_service = b.same_service ∙ a.same_service;
  same_code = b.same_code ∙ a.same_code;
  same_nargs = b.same_nargs ∙ a.same_nargs;
  same_status = b.same_status ∙ a.same_status;
  same_return_to = b.same_return_to ∙ a.same_return_to;
  same_return_as = b.same_return_as ∙ a.same_return_as;
  absent = omega (arith, a.absent, b.absent);
  parsed = λ k p r. elim (dec_lt k mid) [
    | yes early ↦ rw ((b.before k early).0, (b.before k early).1) (a.parsed k p early)
    | no late ↦ b.parsed k (omega arith) r
  ];
  before = λ k p. (
    (b.before k (omega arith)).0 ∙ (a.before k p).0,
    (b.before k (omega arith)).1 ∙ (a.before k p).1,
  );
}

Parsed-refl : (i lo : ℕ) (symbol : ℕ → ℕ) (t : SubtaskTable) → Parsed i lo lo 0 symbol t t
Parsed-refl i lo symbol t = record {
  others = λ j ne. refl;
  stack = refl;
  same_service = refl;
  same_code = refl;
  same_nargs = refl;
  same_status = refl;
  same_return_to = refl;
  same_return_as = refl;
  absent = omega arith;
  parsed = λ k p r. absurd (omega arith);
  before = λ k p. (refl, refl);
}

-- The symbols of the arguments of the code at an address.
abbrev pub code_symbol : Memory ℕ → ℕ → ℕ → ℕ
code_symbol c_store address k = c_store (u32 (address * max_bytecode_sz + k + 1))

-- The loop over the arguments, where the count of absent arguments is a byte and not less than the
-- number of given ones: it fills in the arguments that are given, marks the others as requested or
-- absent, counts the given ones off the absent ones, and changes nothing else.
pub parse_args-Parsed :
    (left : ℕ) (w : WorkItem) (i n : ℕ) (c_store : Memory ℕ) (address pos : ℕ) (rq : Memory Packet)
    (t : SubtaskTable)
    → given_count (code_symbol c_store address) pos left ≤ (t.recs i).nargs_absent
    → (t.recs i).nargs_absent < 256
    → Parsed i pos
        (pos + left)
        (given_count (code_symbol c_store address) pos left)
        (code_symbol c_store address)
        t
        (parse_args left w i n c_store address pos rq t).1
unfolding parse_args
parse_args-Parsed zero w i n c_store address pos rq t h byte =
    rw (add-zero pos) (Parsed-refl i pos (code_symbol c_store address) t)
parse_args-Parsed (suc left) w i n c_store address pos rq t h byte =
    let symbol = code_symbol c_store address in
    let s = parse_arg w i n pos (symbol pos) rq t in
    let first = parse_arg-Parsed w i n pos symbol rq t (omega arith) byte in
    let rest =
      parse_args-Parsed left w i n c_store address (pos + 1) s.0 s.1 (omega (arith, first.absent))
        (omega (arith, first.absent)) in
    rw (shift pos left) (Parsed-trans (omega arith) (omega arith) first rest)
  where
    shift : (p l : ℕ) → p + suc l ≡ p + 1 + l
    shift p l = omega arith
