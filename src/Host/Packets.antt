-- ===== src/Host/Packets.antt =====
-- src/VM.cpp `words2Packets`: bytecode words grouped into packets of three header words and a
-- payload. `none` is a `front()` of an empty queue.
pub mod RoundTrip
use ocl_gprm.Base.{
  ℕ, zero, suc, ◌-◌, ◌*◌, ◌/◌, ◌^◌, Option, none, some, List, [], ◌∷◌, ◌++◌, ◌>>◌, get_bits,
}
use ocl_gprm.Macros.{nbytes}

-- NPACKET_SHIFT, F_Length and FS_Length
abbrev pub npacket_shift : ℕ
npacket_shift = nbytes * 8 - 16

abbrev pub f_length : ℕ
f_length = 0x0000FFFF00000000

abbrev pub fs_length : ℕ
fs_length = 32

-- `n` times `front()` and `pop_front()`: the words taken, and those left.
unfoldable pub take_words : ℕ → List ℕ → Option (List ℕ × List ℕ)
take_words zero words = some ([], words)
take_words (suc n) [] = none
take_words (suc n) (word ∷ words) = elim (take_words n words) [
  | none ↦ none
  | some (taken, left) ↦ some (word ∷ taken, left)
]

-- The payload's length, from the first header word.
unfoldable pub packet_length : List ℕ → ℕ
packet_length [] = 0
packet_length (header_word ∷ _) = get_bits f_length fs_length header_word

-- One packet.
unfoldable pub read_packet : List ℕ → Option (List ℕ × List ℕ)
read_packet words = elim (take_words 3 words) [
  | none ↦ none
  | some (header, words1) ↦ elim (take_words (packet_length header) words1) [
    | none ↦ none
    | some (payload, words2) ↦ some (header ++ payload, words2)
  ]
]

unfoldable pub read_packets : ℕ → List ℕ → Option (List (List ℕ))
read_packets zero words = some []
read_packets (suc n) words = elim (read_packet words) [
  | none ↦ none
  | some (packet, words1) ↦ elim (read_packets n words1) [
    | none ↦ none
    | some packets ↦ some (packet ∷ packets)
  ]
]

unfoldable pub words2packets : List ℕ → Option (List (List ℕ))
words2packets [] = none
words2packets (word ∷ words) = read_packets (word >> npacket_shift) words
