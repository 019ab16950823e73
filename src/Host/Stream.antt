-- ===== src/Host/Stream.antt =====
-- src/VM.cpp `readBytecode`: the bytecode file as 64-bit words, the most significant byte first.
-- An `ifstream` is the bytes that are left and whether it is `good()`: `get()` returns the next
-- byte, or at the end the value EOF, which as an `unsigned char` is 255, and is then not good.
pub mod RoundTrip
use ocl_gprm.Base.{
  ℕ, zero, suc, ◌+◌, ◌*◌, ◌%◌, ◌^◌, Bool, true, false, Option, none, some, List, [], ◌∷◌, u64, ◌<<◌,
  length, if◌then◌else◌,
}
use ocl_gprm.Macros.{nbytes}

pub record Stream : Type 0 where
  pub rest : List ℕ
  pub good : Bool

unfoldable pub get : List ℕ → ℕ × Stream
get [] = (255, record { rest = []; good = false })
get (c ∷ rest) = (c, record { rest = rest; good = true })

-- `for (int i = 0; i < NBYTES; i++)`, with `left` rounds to go. Once the stream is not good, `get`
-- keeps returning EOF.
unfoldable pub read_word : ℕ → ℕ → Stream → ℕ × Stream
read_word zero word f = (word, f)
read_word (suc left) word f =
    let (c, f1) = get f.rest in
    let f2 = if f.good then f1 else f in
    let c1 = if f.good then c else 255 in read_word left (u64 ((word << nbytes) + c1)) f2

-- `while (f.good())`, with fuel; `none` is a loop that did not end.
unfoldable pub read_words : ℕ → Stream → Option (List ℕ)
read_words zero f = none
read_words (suc fuel) f =
    let (word, f1) = read_word nbytes 0 f in
    let later = read_words fuel f1 in
    if f.good then (elim later [ none ↦ none | some words ↦ some (word ∷ words) ]) else some []

-- The words of a file with these bytes; `none` for the bytes is a file that does not open. Each
-- round reads a byte or finds the end.
unfoldable pub read_bytecode : Option (List ℕ) → Option (List ℕ)
read_bytecode none = some []
read_bytecode (some bytes) =
    read_words (suc (suc (length bytes))) (record { rest = bytes; good = true })
