-- ===== src/Host/Stream/RoundTrip.antt =====
-- Reading back a file of 64-bit words.
use ocl_gprm.Base.{
  ℕ, zero, suc, ◌+◌, ◌-◌, ◌/◌, ◌%◌, ◌^◌, ◌≤◌, ◌<◌, ◌≡◌, refl, ap, arith, true, some, List, [], ◌∷◌,
  ◌++◌, length,
}
use ocl_gprm.Macros.{nbytes}
use ocl_gprm.Host.Stream.{Stream, get, read_word, read_words, read_bytecode}

-- The bytes of a word, the most significant first, in front of others.
abbrev pub put_word : ℕ → List ℕ → List ℕ
put_word w rest =
    w / 2 ^ 56
    ∷ w / 2 ^ 48 % 256
    ∷ w / 2 ^ 40 % 256
    ∷ w / 2 ^ 32 % 256
    ∷ w / 2 ^ 24 % 256
    ∷ w / 2 ^ 16 % 256
    ∷ w / 2 ^ 8 % 256
    ∷ w % 256
    ∷ rest

-- A file of words.
abbrev pub file : List ℕ → List ℕ
file [] = []
file (w ∷ ws) = put_word w (file ws)

abbrev pub IsWords : List ℕ → Type 0
IsWords [] = Unit {0}
IsWords (w ∷ ws) = (w < 2 ^ 64) × IsWords ws

abbrev stream : List ℕ → Stream
stream bytes = record { rest = bytes; good = true }

read_word-put :
    (w : ℕ) (rest : List ℕ)
    → w < 2 ^ 64
    → read_word nbytes 0 (stream (put_word w rest)) ≡ (w, stream rest)
unfolding read_word get
read_word-put w rest h = ap (λ v. (v, stream rest)) (omega arith)

length-file : (ws : List ℕ) → length ws ≤ length (file ws)
length-file [] = omega arith
length-file (w ∷ ws) = omega (arith, length-file ws)

-- Behind the last word the loop runs once more, and finds the end of the file eight times.
read_words-end : (fuel : ℕ) → 2 ≤ fuel → read_words fuel (stream []) ≡ some ((2 ^ 64 - 1) ∷ [])
unfolding read_words read_word get
read_words-end zero h = absurd (omega arith)
read_words-end (suc zero) h = absurd (omega arith)
read_words-end (suc (suc fuel)) h = refl

read_words-file :
    (ws : List ℕ) (fuel : ℕ)
    → IsWords ws
    → length ws + 2 ≤ fuel
    → read_words fuel (stream (file ws)) ≡ some (ws ++ (2 ^ 64 - 1) ∷ [])
unfolding read_words
read_words-file [] fuel ok h = read_words-end fuel (omega arith)
read_words-file (w ∷ ws) zero ok h = absurd (omega arith)
read_words-file (w ∷ ws) (suc fuel) ok h =
    ground (arith, read_word-put w (file ws) ok.0, read_words-file ws fuel ok.1 (omega arith))

-- A file of whole 64-bit words reads as these words, in order, followed by a word of ones that is
-- not in the file.
pub read_bytecode-file :
    (ws : List ℕ) → IsWords ws → read_bytecode (some (file ws)) ≡ some (ws ++ (2 ^ 64 - 1) ∷ [])
unfolding read_bytecode
read_bytecode-file ws ok =
    read_words-file ws (suc (suc (length (file ws)))) ok (omega (arith, length-file ws))
