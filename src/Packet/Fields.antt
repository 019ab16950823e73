-- ===== src/Packet/Fields.antt =====
-- What the packet functions do to each field.
use ocl_gprm.Base.{ℕ, ◌+◌, ◌*◌, ◌/◌, ◌%◌, ◌^◌, ◌≡◌, refl, arith, get_bits_lem, put_bits_lem}
use ocl_gprm.Packet.{
  Packet, pkt_get_type, pkt_get_source, pkt_get_arg_pos, pkt_get_sub, pkt_get_payload, pkt_set_type,
  pkt_set_source, pkt_set_arg_pos, pkt_set_sub, pkt_set_payload_type, pkt_set_payload, pkt_create,
}

get_type : (p : Packet) → pkt_get_type p ≡ p.x / 1 % 4
unfolding pkt_get_type
get_type p = get_bits_lem 0 2 p.x refl

get_source : (p : Packet) → pkt_get_source p ≡ p.x / 4 % 256
unfolding pkt_get_source
get_source p = get_bits_lem 2 8 p.x refl

get_arg_pos : (p : Packet) → pkt_get_arg_pos p ≡ p.x / 1024 % 16
unfolding pkt_get_arg_pos
get_arg_pos p = get_bits_lem 10 4 p.x refl

pub get_sub : (p : Packet) → pkt_get_sub p ≡ p.x / 16384 % 1024
unfolding pkt_get_sub
get_sub p = get_bits_lem 14 10 p.x refl

set_type :
    (p : Packet) (v : ℕ)
    → (pkt_set_type p v).x ≡ (p.x / 1 / 4 % 1073741824 * 4 + v * 1 % 2 ^ 32 / 1 % 4) * 1 + p.x % 1
unfolding pkt_set_type
set_type p v = put_bits_lem 0 2 30 32 p.x v refl refl

set_source :
    (p : Packet) (v : ℕ)
    → (pkt_set_source p v).x
      ≡ (p.x / 4 / 256 % 4194304 * 256 + v * 4 % 2 ^ 32 / 4 % 256) * 4 + p.x % 4
unfolding pkt_set_source
set_source p v = put_bits_lem 2 8 22 32 p.x v refl refl

set_arg_pos :
    (p : Packet) (v : ℕ)
    → (pkt_set_arg_pos p v).x
      ≡ (p.x / 1024 / 16 % 262144 * 16 + v * 1024 % 2 ^ 32 / 1024 % 16) * 1024 + p.x % 1024
unfolding pkt_set_arg_pos
set_arg_pos p v = put_bits_lem 10 4 18 32 p.x v refl refl

set_sub :
    (p : Packet) (v : ℕ)
    → (pkt_set_sub p v).x
      ≡ (p.x / 16384 / 1024 % 256 * 1024 + v * 16384 % 2 ^ 32 / 16384 % 1024) * 16384 + p.x % 16384
unfolding pkt_set_sub
set_sub p v = put_bits_lem 14 10 8 32 p.x v refl refl

pub set_payload_type :
    (p : Packet) (v : ℕ)
    → (pkt_set_payload_type p v).x
      ≡ (p.x / 16777216 / 2 % 128 * 2 + v * 16777216 % 2 ^ 32 / 16777216 % 2) * 16777216
        + p.x % 16777216
unfolding pkt_set_payload_type
set_payload_type p v = put_bits_lem 24 1 7 32 p.x v refl refl

-- What the getters of the first word read.
abbrev header : Packet → ℕ × ℕ × ℕ × ℕ
header p = (pkt_get_type p, pkt_get_source p, pkt_get_arg_pos p, pkt_get_sub p)

header-set_type :
    (p : Packet) (v : ℕ)
    → header (pkt_set_type p v) ≡ (v % 4, pkt_get_source p, pkt_get_arg_pos p, pkt_get_sub p)
header-set_type p v =
    let q = pkt_set_type p v in
    let w = set_type p v in
    ground (
      arith,
      w,
      get_type p,
      get_source p,
      get_arg_pos p,
      get_sub p,
      get_type q,
      get_source q,
      get_arg_pos q,
      get_sub q,
    )

header-set_source :
    (p : Packet) (v : ℕ)
    → header (pkt_set_source p v) ≡ (pkt_get_type p, v % 256, pkt_get_arg_pos p, pkt_get_sub p)
header-set_source p v =
    let q = pkt_set_source p v in
    let w = set_source p v in
    ground (
      arith,
      w,
      get_type p,
      get_source p,
      get_arg_pos p,
      get_sub p,
      get_type q,
      get_source q,
      get_arg_pos q,
      get_sub q,
    )

header-set_arg_pos :
    (p : Packet) (v : ℕ)
    → header (pkt_set_arg_pos p v) ≡ (pkt_get_type p, pkt_get_source p, v % 16, pkt_get_sub p)
header-set_arg_pos p v =
    let q = pkt_set_arg_pos p v in
    let w = set_arg_pos p v in
    ground (
      arith,
      w,
      get_type p,
      get_source p,
      get_arg_pos p,
      get_sub p,
      get_type q,
      get_source q,
      get_arg_pos q,
      get_sub q,
    )

header-set_sub :
    (p : Packet) (v : ℕ)
    → header (pkt_set_sub p v) ≡ (pkt_get_type p, pkt_get_source p, pkt_get_arg_pos p, v % 1024)
header-set_sub p v =
    let q = pkt_set_sub p v in
    let w = set_sub p v in
    ground (
      arith,
      w,
      get_type p,
      get_source p,
      get_arg_pos p,
      get_sub p,
      get_type q,
      get_source q,
      get_arg_pos q,
      get_sub q,
    )

header-set_payload_type :
    (p : Packet) (v : ℕ)
    → header (pkt_set_payload_type p v)
      ≡ (pkt_get_type p, pkt_get_source p, pkt_get_arg_pos p, pkt_get_sub p)
header-set_payload_type p v =
    let q = pkt_set_payload_type p v in
    let w = set_payload_type p v in
    ground (
      arith,
      w,
      get_type p,
      get_source p,
      get_arg_pos p,
      get_sub p,
      get_type q,
      get_source q,
      get_arg_pos q,
      get_sub q,
    )

header-set_payload : (p : Packet) (v : ℕ) → header (pkt_set_payload p v) ≡ header p
unfolding pkt_get_type pkt_get_source pkt_get_arg_pos pkt_get_sub pkt_set_payload
header-set_payload p v = refl

-- The getters give back what a packet was created with, cut to each field's width, whatever the
-- packet held before.
pub pkt_create-fields :
    (p : Packet) (type source arg sub payload : ℕ)
    → let q = pkt_create p type source arg sub payload in
      (pkt_get_type q ≡ type % 4)
      × (pkt_get_source q ≡ source % 256)
      × (pkt_get_arg_pos q ≡ arg % 16)
      × (pkt_get_sub q ≡ sub % 1024)
      × (pkt_get_payload q ≡ payload)
unfolding pkt_create pkt_get_payload pkt_set_payload
pkt_create-fields p type source arg sub payload =
    let p1 = pkt_set_type p type in
    let p2 = pkt_set_source p1 source in
    let p3 = pkt_set_arg_pos p2 arg in
    let p4 = pkt_set_sub p3 sub in
    let p5 = pkt_set_payload_type p4 0 in
    ground (
      arith,
      header-set_type p type,
      header-set_source p1 source,
      header-set_arg_pos p2 arg,
      header-set_sub p3 sub,
      header-set_payload_type p4 0,
      header-set_payload p5 payload,
    )
