-- ===== src/Queue/Spec.antt =====
-- What a packet queue promises: first in, first out, at most MAX_BYTECODE_SZ packets.
use ocl_gprm.Base.{
  Bool, true, false, Option, none, some, List, [], ◌∷◌, ◌++◌, ◌==◌, if◌then◌else◌, length,
  length-append, ◌+◌, ◌≤◌, ◌≡◌, ◌<◌, ◌∙◌, sym, arith,
}
use mathlib.Core.List.{append-nil, append_assoc}
use ocl_gprm.Macros.{max_bytecode_sz}
use ocl_gprm.Packet.{Packet}

unfoldable pub push : Packet → List Packet → Bool × List Packet
push v l = if length l == max_bytecode_sz then (false, l) else (true, l ++ (v ∷ []))

unfoldable pub pop : List Packet → Option (Packet × List Packet)
pop [] = none
pop (p ∷ l) = some (p, l)

module _ (v : Packet) (l : List Packet) where
  pub push-full : length l ≡ max_bytecode_sz → push v l ≡ (false, l)
  unfolding push
  push-full h = ground arith

  pub push-room : length l < max_bytecode_sz → push v l ≡ (true, l ++ (v ∷ []))
  unfolding push
  push-room h = ground arith

-- Pushing packets one after another; those that find the queue full are lost.
abbrev pub push_all : List Packet → List Packet → List Packet
push_all [] l = l
push_all (p ∷ ps) l = push_all ps (push p l).1

-- With room for all of them, none is lost.
pub push_all-room :
    (ps l : List Packet) → length ps + length l ≤ max_bytecode_sz → push_all ps l ≡ l ++ ps
push_all-room [] l h = sym (append-nil l)
push_all-room (p ∷ ps) l h = rw (push-room p l (omega arith)) (
    push_all-room ps (l ++ (p ∷ [])) (omega (arith, length-append l (p ∷ [])))
    ∙ append_assoc l (p ∷ []) ps)
