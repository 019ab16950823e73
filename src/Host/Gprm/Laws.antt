-- ===== src/Host/Gprm/Laws.antt =====
-- The buffers that a user of the class allocates and writes.
use native.Mathlib.Decide.{dec_lt}
use mathlib.Core.Option
use ocl_gprm.Base.{
  true, false, ltb, if◌then◌else◌, ℕ, zero, suc, ◌+◌, ◌/◌, ◌≤◌, ◌<◌, ◌≡◌, refl, sym, ap, ◌∙◌, arith,
  u32, Option, none, some, Memory, List, [], ◌∷◌, ◌++◌, length,
}
use ocl_gprm.Host.Packets.{take_words}
use ocl_gprm.Host.Packets.RoundTrip.{take_words-append}
use ocl_gprm.Host.Main.{Prepared, prepare}
use ocl_gprm.Host.Wrapper.{choose_units}
use ocl_gprm.Host.Gprm.{
  OclGprm, vector, members, construct, finished, out_of_range, vector_at, vector_insert,
  allocate_buffer, write_buffer,
}

-- Buffers allocated one after another, each by its position and its size in bytes.
abbrev pub allocate_all : List (ℕ × ℕ) → OclGprm → OclGprm
allocate_all [] g = g
allocate_all ((pos, bufsize) ∷ sizes) g = allocate_all sizes (allocate_buffer pos bufsize g)

-- Their size in words.
abbrev pub total : List (ℕ × ℕ) → ℕ
total [] = 0
total ((pos, bufsize) ∷ sizes) = bufsize / 4 + total sizes

vector-append : (m n x : ℕ) → vector m x ++ vector n x ≡ vector (m + n) x
vector-append zero n x = ap (λ k. vector k x) (omega arith)
vector-append (suc m) n x =
    ap (λ l. x ∷ l) (vector-append m n x) ∙ ap (λ k. vector k x) {x = suc (m + n)} (omega arith)

length-vector : (n x : ℕ) → length (vector n x) ≡ n
length-vector zero x = refl
length-vector (suc n) x = ap suc (length-vector n x)

allocate_all-zeros :
    (sizes : List (ℕ × ℕ)) (g : OclGprm) (n : ℕ)
    → g.data_p ≡ vector n 0
    → (allocate_all sizes g).data_p ≡ vector (n + total sizes) 0
unfolding allocate_buffer
allocate_all-zeros [] g n e = e ∙ ap (λ m. vector m 0) (omega arith)
allocate_all-zeros ((pos, bufsize) ∷ sizes) g n e =
    allocate_all-zeros sizes (allocate_buffer pos bufsize g) (n + bufsize / 4)
      (ap (λ l. l ++ vector (bufsize / 4) 0) e ∙ vector-append n (bufsize / 4) 0)
    ∙ ap (λ m. vector m 0) (omega arith)

vector_at-inside : (n pos : ℕ) → pos < n → vector_at (vector n 0) pos ≡ finished 0
unfolding vector_at
vector_at-inside zero pos h = absurd (omega arith)
vector_at-inside (suc n) zero h = refl
vector_at-inside (suc n) (suc pos) h = vector_at-inside n pos (omega arith)

vector_at-outside : (n pos : ℕ) → n ≤ pos → vector_at (vector n 0) pos ≡ out_of_range
unfolding vector_at
vector_at-outside zero pos h = refl
vector_at-outside (suc n) zero h = absurd (omega arith)
vector_at-outside (suc n) (suc pos) h = vector_at-outside n pos (omega arith)

abbrev words_of : Option OclGprm → List ℕ
words_of none = []
words_of (some g) = g.data_p

members-empty :
    (regs : Memory ℕ) (p : Option Prepared) → words_of (Option.map (members regs) p) ≡ []
unfolding members
members-empty regs none = refl
members-empty regs (some p) = refl

construct-empty :
    (n_groups max_compute_units : ℕ) (file : Option (List ℕ)) (fresh : Prepared) (regs : Memory ℕ)
    (g : OclGprm)
    → construct n_groups max_compute_units file fresh regs ≡ some g
    → g.data_p ≡ []
unfolding construct
construct-empty n_groups max_compute_units file fresh regs g e =
    sym (ap words_of e)
    ∙ members-empty regs (prepare (choose_units n_groups max_compute_units) file fresh)

write_buffer-inside :
    (pos bufsize : ℕ) (buf bufv rest zeros : List ℕ) (g : OclGprm)
    → take_words (bufsize / 4) buf ≡ some (bufv, rest)
    → g.data_p ≡ zeros
    → vector_at zeros pos ≡ finished 0
    → write_buffer pos buf bufsize g
      ≡ finished (u32 (length (bufv ++ zeros)), record g { data_p = bufv ++ zeros })
unfolding write_buffer vector_insert
write_buffer-inside pos bufsize buf bufv rest zeros g taken e found =
    let found' : vector_at g.data_p pos ≡ finished 0 = ap (λ l. vector_at l pos) e ∙ found in
    rw (taken, found', write_buffer)
      (ap (λ l. finished (u32 (length (bufv ++ l)), record g { data_p = bufv ++ l })) e)

write_buffer-outside :
    (pos bufsize : ℕ) (buf bufv rest zeros : List ℕ) (g : OclGprm)
    → take_words (bufsize / 4) buf ≡ some (bufv, rest)
    → g.data_p ≡ zeros
    → vector_at zeros pos ≡ out_of_range
    → write_buffer pos buf bufsize g ≡ out_of_range
unfolding write_buffer
write_buffer-outside pos bufsize buf bufv rest zeros g taken e found =
    rw (taken, e, found, write_buffer) refl

-- On an object of the class OclGPRM that has been constructed, and on which buffers have then been
-- allocated, one after another, `writeBuffer` of as many words as it is told, to a position behind
-- the words allocated so far throws std::out_of_range; at any other position it puts the words in
-- front of all allocated words, wherever the position is, and the data grows by them.
pub write_buffer-allocated :
    (n_groups max_compute_units : ℕ) (file : Option (List ℕ)) (fresh : Prepared) (regs : Memory ℕ)
    (g : OclGprm) (sizes : List (ℕ × ℕ)) (pos bufsize : ℕ) (bufv rest : List ℕ)
    → construct n_groups max_compute_units file fresh regs ≡ some g
    → length bufv ≡ bufsize / 4
    → let g' = allocate_all sizes g in
      let data_p = bufv ++ vector (total sizes) 0 in
      write_buffer pos (bufv ++ rest) bufsize g' ≡ (
        if ltb pos (total sizes)
        then finished (u32 (length data_p), record g' { data_p = data_p })
        else out_of_range)
write_buffer-allocated n_groups max_compute_units file fresh regs g sizes pos bufsize bufv rest e
      len =
    let g' = allocate_all sizes g in
    let zeros = vector (total sizes) 0 in
    let is_zeros : g'.data_p ≡ zeros =
      allocate_all-zeros sizes g 0 (construct-empty n_groups max_compute_units file fresh regs g e)
      ∙ ap (λ n. vector n 0) (omega arith) in
    let taken : take_words (bufsize / 4) (bufv ++ rest) ≡ some (bufv, rest) =
      ap (λ n. take_words n (bufv ++ rest)) (sym len) ∙ take_words-append bufv rest in
    elim (dec_lt pos (total sizes)) [
      | yes h ↦
          let b : ltb pos (total sizes) ≡ true = ground arith in
          rw (b) (
            write_buffer-inside pos bufsize (bufv ++ rest) bufv rest zeros g' taken is_zeros
              (vector_at-inside (total sizes) pos h))
      | no h ↦
          let b : ltb pos (total sizes) ≡ false = ground arith in
          rw (b) (
            write_buffer-outside pos bufsize (bufv ++ rest) bufv rest zeros g' taken is_zeros
              (vector_at-outside (total sizes) pos (omega arith)))
    ]
