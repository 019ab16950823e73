-- ===== src/Host/CodeStore.antt =====
-- src/VM.cpp, "Populate the code store": the words of the code packets go to the code store, each
-- packet at its code address; a reference packet sets the root address.
pub mod Laws
pub mod Program
use ocl_gprm.Base.{
  ℕ, zero, suc, ◌+◌, ◌-◌, ◌*◌, ◌/◌, ◌%◌, ◌^◌, Bool, ◌&&◌, ◌==◌, ltb, if◌then◌else◌, List, [], ◌∷◌,
  bit_and, ◌>>◌, Memory, store,
}
use ocl_gprm.Macros.{max_bytecode_sz}

-- P_code, P_reference, FS_Packet_type, FW_Packet_type, FS_CodeAddress and FW_CodeAddress
abbrev pub p_code : ℕ
p_code = 2

abbrev pub p_reference : ℕ
p_reference = 3

abbrev pub fs_packet_type : ℕ
fs_packet_type = 56

abbrev pub fw_packet_type : ℕ
fw_packet_type = 0xFF

abbrev pub fs_code_address : ℕ
fs_code_address = 32

abbrev pub fw_code_address : ℕ
fw_code_address = 0x3FF

-- The variables of the loop over the words of a packet.
pub record Loader : Type 0 where
  pub root_address : ℕ
  pub word_count : ℕ
  pub packet_type : ℕ
  pub code_address : ℕ
  pub code_store : Memory ℕ

unfoldable pub load_word : ℕ → Loader → Loader
load_word word l =
    let packet_type =
      if l.word_count == 0
      then bit_and (word >> fs_packet_type) fw_packet_type
      else l.packet_type in
    let code_address =
      if l.word_count == 2
      then bit_and (word >> fs_code_address) fw_code_address
      else l.code_address in
    let root_address =
      if l.word_count == 2
      then (if packet_type == p_reference then code_address else l.root_address)
      else l.root_address in
    let index = code_address * max_bytecode_sz + l.word_count - 3 in
    let code_store =
      if packet_type == p_code && ltb 2 l.word_count
      then store l.code_store index word
      else l.code_store in
    record {
      root_address = root_address;
      word_count = l.word_count + 1;
      packet_type = packet_type;
      code_address = code_address;
      code_store = code_store;
    }

unfoldable pub load_words : List ℕ → Loader → Loader
load_words [] l = l
load_words (word ∷ words) l = load_words words (load_word word l)

unfoldable pub load_packets : List (List ℕ) → Loader → Loader
load_packets [] l = l
load_packets (packet ∷ packets) l =
    load_packets packets
      (load_words packet (record l { word_count = 0; packet_type = 0; code_address = 0 }))

-- The root address and the code store for a program, from a code store with unknown content.
unfoldable pub populate_code_store : List (List ℕ) → Memory ℕ → ℕ × Memory ℕ
populate_code_store packets code_store =
    let l = load_packets packets (record {
      root_address = 1;
      word_count = 0;
      packet_type = 0;
      code_address = 0;
      code_store = code_store;
    }) in
    (l.root_address, l.code_store)
