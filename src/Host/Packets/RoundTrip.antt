-- ===== src/Host/Packets/RoundTrip.antt =====
-- `words2Packets` takes a program apart into the packets that it was written from.
use mathlib.Core.List.{append_assoc}
use ocl_gprm.Base.{
  ℕ, ◌+◌, ◌*◌, ◌^◌, ◌<◌, ◌≡◌, refl, ap, ◌∙◌, arith, some, List, [], ◌∷◌, ◌++◌, length, get_bits_lem,
}
use ocl_gprm.Host.Packets.{take_words, packet_length, read_packet, read_packets, words2packets}

-- A packet of three header words and a payload, whose length the first header word tells.
pub record Source : Type 0 where
  pub type : ℕ
  pub low : ℕ
  pub second : ℕ
  pub third : ℕ
  pub payload : List ℕ

-- The first header word holds the length between other bits.
abbrev pub words : Source → List ℕ
words s = (s.type * 2 ^ 48 + length s.payload * 2 ^ 32 + s.low) ∷ s.second ∷ s.third ∷ s.payload

abbrev pub IsSource : Source → Type 0
IsSource s = (s.type < 2 ^ 16) × (length s.payload < 2 ^ 16) × (s.low < 2 ^ 32)

abbrev pub AllSources : List Source → Type 0
AllSources [] = Unit {0}
AllSources (s ∷ ss) = IsSource s × AllSources ss

abbrev pub body : List Source → List ℕ
body [] = []
body (s ∷ ss) = words s ++ body ss

abbrev pub all_words : List Source → List (List ℕ)
all_words [] = []
all_words (s ∷ ss) = words s ∷ all_words ss

pub take_words-append : (xs ys : List ℕ) → take_words (length xs) (xs ++ ys) ≡ some (xs, ys)
unfolding take_words
take_words-append [] ys = refl
take_words-append (x ∷ xs) ys = rw (take_words-append xs ys)

packet_length-words :
    (s : Source) (h : List ℕ)
    → IsSource s
    → packet_length ((s.type * 2 ^ 48 + length s.payload * 2 ^ 32 + s.low) ∷ h) ≡ length s.payload
unfolding packet_length
packet_length-words s h ok =
    get_bits_lem 32 16 (s.type * 2 ^ 48 + length s.payload * 2 ^ 32 + s.low) refl ∙ omega arith

read_packet-words :
    (s : Source) (rest : List ℕ) → IsSource s → read_packet (words s ++ rest) ≡ some (words s, rest)
unfolding read_packet take_words
read_packet-words s rest ok =
    ground
      (arith, packet_length-words s (s.second ∷ s.third ∷ []) ok, take_words-append s.payload rest)

read_packets-body :
    (ss : List Source) (rest : List ℕ)
    → AllSources ss
    → read_packets (length ss) (body ss ++ rest) ≡ some (all_words ss)
unfolding read_packets
read_packets-body [] rest ok = refl
read_packets-body (s ∷ ss) rest ok = ground (
  arith,
  append_assoc (words s) (body ss) rest,
  read_packet-words s (body ss ++ rest) ok.0,
  read_packets-body ss rest ok.1,
)

-- A program of at most 65535 packets, each with a payload below 65536 words, comes back as its
-- packets, whatever the low bits of its first word and the words behind it are.
pub words2packets-body :
    (ss : List Source) (low : ℕ) (rest : List ℕ)
    → length ss < 2 ^ 16
    → AllSources ss
    → low < 2 ^ 48
    → words2packets ((length ss * 2 ^ 48 + low) ∷ (body ss ++ rest)) ≡ some (all_words ss)
unfolding words2packets
words2packets-body ss low rest few ok h =
    ap (λ n. read_packets n (body ss ++ rest)) {y = length ss} (omega arith)
    ∙ read_packets-body ss rest ok
