-- ===== src/Packet.antt =====
-- kernels/VM.cl "Packet Functions" and src/Packet.cpp: a packet is two 32-bit words, the first
-- of which holds the packet's type, source, argument position and subtask, the second a payload.
pub mod Fields
use ocl_gprm.Base.{ℕ, get_bits, put_bits}
use ocl_gprm.Macros.Pkt

pub record Packet : Type 0 where
  pub x : ℕ
  pub y : ℕ

unfoldable pub pkt_get_type : Packet → ℕ
pkt_get_type p = get_bits Pkt.type_mask Pkt.type_shift p.x

unfoldable pub pkt_get_source : Packet → ℕ
pkt_get_source p = get_bits Pkt.src_mask Pkt.src_shift p.x

unfoldable pub pkt_get_arg_pos : Packet → ℕ
pkt_get_arg_pos p = get_bits Pkt.arg_mask Pkt.arg_shift p.x

unfoldable pub pkt_get_sub : Packet → ℕ
pkt_get_sub p = get_bits Pkt.sub_mask Pkt.sub_shift p.x

unfoldable pub pkt_get_payload : Packet → ℕ
pkt_get_payload p = p.y

unfoldable pub pkt_set_type : Packet → ℕ → Packet
pkt_set_type p v = record p { x = put_bits 32 Pkt.type_mask Pkt.type_shift p.x v }

unfoldable pub pkt_set_source : Packet → ℕ → Packet
pkt_set_source p v = record p { x = put_bits 32 Pkt.src_mask Pkt.src_shift p.x v }

unfoldable pub pkt_set_arg_pos : Packet → ℕ → Packet
pkt_set_arg_pos p v = record p { x = put_bits 32 Pkt.arg_mask Pkt.arg_shift p.x v }

unfoldable pub pkt_set_sub : Packet → ℕ → Packet
pkt_set_sub p v = record p { x = put_bits 32 Pkt.sub_mask Pkt.sub_shift p.x v }

unfoldable pub pkt_set_payload_type : Packet → ℕ → Packet
pkt_set_payload_type p v = record p { x = put_bits 32 Pkt.ptype_mask Pkt.ptype_shift p.x v }

unfoldable pub pkt_set_payload : Packet → ℕ → Packet
pkt_set_payload p payload = record p { y = payload }

-- The kernel's `pkt_create` does not initialise its packet: `p` is what stands there.
unfoldable pub pkt_create : Packet → ℕ → ℕ → ℕ → ℕ → ℕ → Packet
pkt_create p type source arg sub payload =
    let p1 = pkt_set_type p type in
    let p2 = pkt_set_source p1 source in
    let p3 = pkt_set_arg_pos p2 arg in
    let p4 = pkt_set_sub p3 sub in let p5 = pkt_set_payload_type p4 0 in pkt_set_payload p5 payload
