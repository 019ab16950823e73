-- ===== src/Host/CodeStore/Laws.antt =====
-- Where the words of a program stand in the code store.
use ocl_gprm.Base.{
  ℕ, suc, ◌+◌, ◌*◌, ◌/◌, ◌%◌, ◌^◌, ◌≤◌, ◌<◌, ◌≡◌, ◌≢◌, ◌⊎◌, inl, refl, sym, ap, ◌∙◌, arith, List,
  [], ◌∷◌, length, Memory, store, store_self, store_ne, ◌==◌, if◌then◌else◌,
}
use ocl_gprm.Base.Bits.{bit_and_ones}
use ocl_gprm.Macros.{max_bytecode_sz}
use ocl_gprm.Host.CodeStore.{Loader, load_word, load_words, p_code, p_reference}

-- The memory holds these words from an index on.
abbrev pub Holds : Memory ℕ → ℕ → List ℕ → Type 0
Holds m i [] = Unit {0}
Holds m i (x ∷ xs) = (m i ≡ x) × Holds m (i + 1) xs

pub Holds-ext :
    (m m' : Memory ℕ) (i : ℕ) (xs : List ℕ)
    → ((j : ℕ) → i ≤ j → j < i + length xs → m' j ≡ m j)
    → Holds m i xs
    → Holds m' i xs
Holds-ext m m' i [] same h = tt
Holds-ext m m' i (x ∷ xs) same h = (
  same i (omega arith) (omega arith) ∙ h.0,
  Holds-ext m m' (i + 1) xs (λ j p r. same j (omega arith) (omega arith)) h.1,
)

-- The loader in a code packet for address `a`, about to place a word at index `i`.
pub record Placing (a i : ℕ) (l : Loader) : Type 0 where
  pub code : l.packet_type ≡ p_code
  pub address : l.code_address ≡ a
  pub index : i + 3 ≡ a * max_bytecode_sz + l.word_count
  pub behind_header : 2 < l.word_count

load_word-store :
    (x a i : ℕ) (l : Loader) → Placing a i l → (load_word x l).code_store ≡ store l.code_store i x
unfolding load_word
load_word-store x a i l h = ground (arith, h.code, h.address, h.index, h.behind_header)

load_word-Placing : (x a i : ℕ) (l : Loader) → Placing a i l → Placing a (i + 1) (load_word x l)
unfolding load_word
load_word-Placing x a i l h = record {
  code = ground (arith, h.code, h.behind_header);
  address = ground (arith, h.address, h.behind_header);
  index = ground (arith, h.index);
  behind_header = ground (arith, h.behind_header);
}

load_word-root :
    (x a i : ℕ) (l : Loader) → Placing a i l → (load_word x l).root_address ≡ l.root_address
unfolding load_word
load_word-root x a i l h = ground (arith, h.behind_header)

-- The words `xs` placed from index `i` on, and nothing else changed.
pub record Placed (i : ℕ) (xs : List ℕ) (l l' : Loader) : Type 0 where
  pub placed : Holds l'.code_store i xs
  pub outside : (j : ℕ) → (j < i) ⊎ (i + length xs ≤ j) → l'.code_store j ≡ l.code_store j
  pub same_root : l'.root_address ≡ l.root_address

pub load_words-Placed :
    (xs : List ℕ) (a i : ℕ) (l : Loader) → Placing a i l → Placed i xs l (load_words xs l)
unfolding load_words
load_words-Placed [] a i l h = record { placed = tt; outside = λ j h. refl; same_root = refl }
load_words-Placed (x ∷ xs) a i l h =
    let rest = load_words-Placed xs a (i + 1) (load_word x l) (load_word-Placing x a i l h) in
    let stored = λ (j : ℕ). ap (λ (m : Memory ℕ). m j) (load_word-store x a i l h) in
    record {
      placed = (
        rest.outside i (inl (omega arith)) ∙ stored i ∙ store_self l.code_store i x,
        rest.placed,
      );
      outside =
          λ j p. rest.outside j (later j p) ∙ stored j ∙ store_ne l.code_store i j x (omega arith);
      same_root = rest.same_root ∙ load_word-root x a i l h;
    }
  where
    later : (j : ℕ) → (j < i) ⊎ (i + suc (length xs) ≤ j) → (j < i + 1) ⊎ (i + 1 + length xs ≤ j)
    later j p = ground arith

load_word-skip :
    (x : ℕ) (l : Loader)
    → l.packet_type ≢ p_code
    → 2 < l.word_count
    → let l' = load_word x l in
      (l'.code_store ≡ l.code_store)
      × (l'.root_address ≡ l.root_address)
      × (l'.packet_type ≡ l.packet_type)
      × (l'.word_count ≡ l.word_count + 1)
unfolding load_word
load_word-skip x l t h = (ground arith, ground arith, ground arith, refl)

-- A packet that is no code packet stores nothing.
pub load_words-skip :
    (xs : List ℕ) (l : Loader)
    → l.packet_type ≢ p_code
    → 2 < l.word_count
    → ((load_words xs l).code_store ≡ l.code_store)
      × ((load_words xs l).root_address ≡ l.root_address)
unfolding load_words
load_words-skip [] l t h = (refl, refl)
load_words-skip (x ∷ xs) l t h =
    let (store, root, type, count) = load_word-skip x l t h in
    let (store', root') =
      load_words-skip xs (load_word x l) (λ e. t (sym type ∙ e)) (omega (arith, count)) in
    (store' ∙ store, root' ∙ root)

-- A packet as its three header words and its payload.
pub record Packed : Type 0 where
  pub first : ℕ
  pub second : ℕ
  pub third : ℕ
  pub payload : List ℕ

abbrev pub packed_words : Packed → List ℕ
packed_words p = p.first ∷ p.second ∷ p.third ∷ p.payload

abbrev pub type_of : Packed → ℕ
type_of p = p.first / 2 ^ 56 % 2 ^ 8

abbrev pub address_of : Packed → ℕ
address_of p = p.third / 2 ^ 32 % 2 ^ 10

-- The loader behind the header of a packet.
abbrev pub opened : Packed → Loader → Loader
opened p l = load_word p.third (
    load_word p.second
      (load_word p.first (record l { word_count = 0; packet_type = 0; code_address = 0 })))

pub opened_lem :
    (p : Packed) (l : Loader)
    → let l' = opened p l in
      (l'.packet_type ≡ type_of p)
      × (l'.code_address ≡ address_of p)
      × (l'.word_count ≡ 3)
      × (l'.code_store ≡ l.code_store)
      × (l'.root_address ≡ (if type_of p == p_reference then address_of p else l.root_address))
unfolding load_word
opened_lem p l =
    let t = bit_and_ones 8 (p.first / 2 ^ 56) in
    let a = bit_and_ones 10 (p.third / 2 ^ 32) in
    (ground (arith, t), ground (arith, a), ground arith, ground (arith, t), ground (arith, t, a))
