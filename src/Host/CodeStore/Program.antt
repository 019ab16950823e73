-- ===== src/Host/CodeStore/Program.antt =====
-- A whole program in the code store.
use ocl_gprm.Base.{
  ℕ, ◌+◌, ◌*◌, ◌≤◌, ◌<◌, ◌≡◌, ◌≢◌, ◌⊎◌, inl, inr, refl, sym, ap, ◌∙◌, arith, List, [], ◌∷◌, ◌++◌,
  length, Memory, ◌==◌, if◌then◌else◌,
}
use native.Mathlib.Decide.{ℕ_discrete}
use ocl_gprm.Macros.{max_bytecode_sz}
use ocl_gprm.Host.CodeStore.{
  Loader, load_words, load_packets, populate_code_store, p_code, p_reference,
}
use ocl_gprm.Host.CodeStore.Laws.{
  Holds, Holds-ext, Placed, load_words-Placed, load_words-skip, Packed, packed_words, type_of,
  address_of, opened, opened_lem,
}

abbrev reset : Loader → Loader
reset l = record l { word_count = 0; packet_type = 0; code_address = 0 }

module _ (p : Packed) (l : Loader) where
  abbrev loaded : Loader
  loaded = load_words (packed_words p) (reset l)

  -- A code packet stands in the code store at its address.
  loaded-code :
      type_of p ≡ p_code → Placed (address_of p * max_bytecode_sz) p.payload (opened p l) loaded
  unfolding load_words
  loaded-code e =
      let (t, a, c, _, _) = opened_lem p l in
      load_words-Placed p.payload (address_of p) (address_of p * max_bytecode_sz) (opened p l)
        (record {
          code = t ∙ e;
          address = a;
          index = omega (arith, c);
          behind_header = omega (arith, c);
        })

  loaded-skip :
      type_of p ≢ p_code
      → (loaded.code_store ≡ l.code_store) × (loaded.root_address ≡ (opened p l).root_address)
  unfolding load_words
  loaded-skip ne =
      let (t, _, c, s, _) = opened_lem p l in
      let (store, root) =
        load_words-skip p.payload (opened p l) (λ e. ne (sym t ∙ e)) (omega (arith, c)) in
      (store ∙ s, root)

  -- Loading a packet sets the root address if and only if it is a reference packet.
  loaded-root :
      loaded.root_address ≡ (if type_of p == p_reference then address_of p else l.root_address)
  loaded-root = elim (ℕ_discrete (type_of p) p_code) [
    | yes e ↦ (loaded-code e).same_root ∙ (opened_lem p l).4
    | no ne ↦ (loaded-skip ne).1 ∙ (opened_lem p l).4
  ]

  -- A packet that leaves the code at an address alone: no code, or code at another address.
  abbrev Spares : ℕ → Type 0
  Spares a = (type_of p ≢ p_code) ⊎ ((address_of p ≢ a) × (length p.payload ≤ max_bytecode_sz))

  loaded-Spares :
      (a j : ℕ)
      → Spares a
      → a * max_bytecode_sz ≤ j
      → j < a * max_bytecode_sz + max_bytecode_sz
      → loaded.code_store j ≡ l.code_store j
  loaded-Spares a j (inl ne) lo hi = ap (λ (m : Memory ℕ). m j) (loaded-skip ne).0
  loaded-Spares a j (inr (ne, fits)) lo hi = elim (ℕ_discrete (type_of p) p_code) [
    | yes e ↦
        (loaded-code e).outside j (ground arith) ∙ ap (λ (m : Memory ℕ). m j) (opened_lem p l).3
    | no nc ↦ ap (λ (m : Memory ℕ). m j) (loaded-skip nc).0
  ]

abbrev pub AllSpare : ℕ → List Packed → Type 0
AllSpare a [] = Unit {0}
AllSpare a (p ∷ ps) =
    ((type_of p ≢ p_code) ⊎ ((address_of p ≢ a) × (length p.payload ≤ max_bytecode_sz)))
    × AllSpare a ps

abbrev pub packed : List Packed → List (List ℕ)
packed [] = []
packed (p ∷ ps) = packed_words p ∷ packed ps

load_packets-Spares :
    (ps : List Packed) (a j : ℕ) (l : Loader)
    → AllSpare a ps
    → a * max_bytecode_sz ≤ j
    → j < a * max_bytecode_sz + max_bytecode_sz
    → (load_packets (packed ps) l).code_store j ≡ l.code_store j
unfolding load_packets
load_packets-Spares [] a j l ok lo hi = refl
load_packets-Spares (p ∷ ps) a j l ok lo hi =
    load_packets-Spares ps a j (loaded p l) ok.1 lo hi ∙ loaded-Spares p l a j ok.0 lo hi

load_packets-append :
    (xs ys : List (List ℕ)) (l : Loader)
    → load_packets (xs ++ ys) l ≡ load_packets ys (load_packets xs l)
unfolding load_packets
load_packets-append [] ys l = refl
load_packets-append (x ∷ xs) ys l = load_packets-append xs ys (load_words x (reset l))

abbrev start : Memory ℕ → Loader
start code_store = record {
  root_address = 1;
  word_count = 0;
  packet_type = 0;
  code_address = 0;
  code_store = code_store;
}

-- A code packet that fits its part of the code store stands there word for word once the program is
-- loaded, if no later code packet has the same address and all later ones fit theirs.
pub populate_code_store-Holds :
    (before : List (List ℕ)) (p : Packed) (after : List Packed) (code_store : Memory ℕ)
    → type_of p ≡ p_code
    → length p.payload ≤ max_bytecode_sz
    → AllSpare (address_of p) after
    → Holds
        (populate_code_store (before ++ packed_words p ∷ packed after) code_store).1
        (address_of p * max_bytecode_sz)
        p.payload
unfolding populate_code_store load_packets
populate_code_store-Holds before p after code_store e fits ok =
    let l = load_packets before (start code_store) in
    rw (load_packets-append before (packed_words p ∷ packed after) (start code_store)) (
      Holds-ext (loaded p l).code_store _ _ p.payload
        (λ j lo hi. load_packets-Spares after (address_of p) j (loaded p l) ok lo (omega arith))
        (loaded-code p l e).placed)

abbrev pub NoReference : List Packed → Type 0
NoReference [] = Unit {0}
NoReference (p ∷ ps) = (type_of p ≢ p_reference) × NoReference ps

load_packets-root :
    (ps : List Packed) (l : Loader)
    → NoReference ps
    → (load_packets (packed ps) l).root_address ≡ l.root_address
unfolding load_packets
load_packets-root [] l ok = refl
load_packets-root (p ∷ ps) l ok =
    load_packets-root ps (loaded p l) ok.1 ∙ loaded-root p l ∙ ground arith

-- The root address is the code address of the last reference packet, and 1 for a program without
-- any.
pub populate_code_store-root :
    (before : List (List ℕ)) (p : Packed) (after : List Packed) (code_store : Memory ℕ)
    → NoReference after
    → type_of p ≡ p_reference
    → ((populate_code_store (before ++ packed_words p ∷ packed after) code_store).0 ≡ address_of p)
      × ((populate_code_store (packed after) code_store).0 ≡ 1)
unfolding populate_code_store load_packets
populate_code_store-root before p after code_store ok e =
    let l = load_packets before (start code_store) in
    (
      rw (load_packets-append before (packed_words p ∷ packed after) (start code_store))
          (load_packets-root after (loaded p l) ok ∙ loaded-root p l ∙ ground arith),
      load_packets-root after (start code_store) ok,
    )
