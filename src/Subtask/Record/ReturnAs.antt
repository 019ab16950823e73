-- ===== src/Subtask/Record/ReturnAs.antt =====
-- What a record keeps of where its result goes. The position comes back; the record's address
-- comes back shifted, since its getter masks without shifting.
use ocl_gprm.Base.{ℕ, ◌+◌, ◌*◌, ◌/◌, ◌%◌, ◌^◌, ◌≡◌, refl, arith, masked, put_bits_lem}
use ocl_gprm.Subtask.Record.{
  SubtaskRecord, addr_mask, pos_mask, subt_rec_get_return_as_addr, subt_rec_get_return_as_pos,
  subt_rec_set_return_as_addr, subt_rec_set_return_as_pos,
}

addr_word :
    (r : SubtaskRecord) → subt_rec_get_return_as_addr r ≡ r.return_as / 2 ^ 8 % 2 ^ 8 * 2 ^ 8
unfolding subt_rec_get_return_as_addr
addr_word r = masked 8 8 r.return_as refl

pos_word : (r : SubtaskRecord) → subt_rec_get_return_as_pos r ≡ r.return_as / 1 % 2 ^ 8 * 1
unfolding subt_rec_get_return_as_pos
pos_word r = masked 0 8 r.return_as refl

set_addr_word :
    (r : SubtaskRecord) (v : ℕ)
    → (subt_rec_set_return_as_addr r v).return_as ≡ v % 2 ^ 8 * 2 ^ 8 + r.return_as % 2 ^ 8
unfolding subt_rec_set_return_as_addr
set_addr_word r v = omega (arith, put_bits_lem 8 8 16 32 r.return_as v {mask = addr_mask} refl refl)

set_pos_word :
    (r : SubtaskRecord) (v : ℕ)
    → (subt_rec_set_return_as_pos r v).return_as ≡ r.return_as / 2 ^ 8 % 2 ^ 8 * 2 ^ 8 + v % 2 ^ 8
unfolding subt_rec_set_return_as_pos
set_pos_word r v = omega (arith, put_bits_lem 0 8 24 32 r.return_as v {mask = pos_mask} refl refl)

-- Once the address and then the position are set, the position comes back cut to 8 bits, and the
-- address comes back cut to 8 bits and multiplied by 256.
pub return_as-fields :
    (r : SubtaskRecord) (addr pos : ℕ)
    → let r' = subt_rec_set_return_as_pos (subt_rec_set_return_as_addr r addr) pos in
      (subt_rec_get_return_as_pos r' ≡ pos % 256)
      × (subt_rec_get_return_as_addr r' ≡ addr % 256 * 256)
return_as-fields r addr pos =
    let r1 = subt_rec_set_return_as_addr r addr in
    let r' = subt_rec_set_return_as_pos r1 pos in
    omega (arith, set_addr_word r addr, set_pos_word r1 pos, addr_word r', pos_word r')
