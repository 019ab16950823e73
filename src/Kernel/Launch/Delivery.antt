-- ===== src/Kernel/Launch/Delivery.antt =====
-- Packets on their way from the transfer queues to the real queues.
use ocl_gprm.Base.{
  ℕ, ◌≤◌, ◌<◌, ◌≡◌, ◌≢◌, ◌⊎◌, ◌↔◌, inl, inr, refl, sym, ap, ap₂, ◌∙◌, arith, Memory, true,
  Bool-cases, List, [], ◌∷◌, length, length-append,
}
use ocl_gprm.Packet.{Packet}
use ocl_gprm.Queue.{q_is_empty}
use ocl_gprm.Queue.Spec.{push_all, push}
use ocl_gprm.Queue.Window.{contents}
use ocl_gprm.Queue.Fifo.{read-contents}
use ocl_gprm.Queue.Frame.{AllValid}
use ocl_gprm.Queue.Transfer.{computation_complete}
use ocl_gprm.Queue.Transfer.Laws.{Moved, contents-empty}
use ocl_gprm.Queue.Transfer.Complete.{computation_complete_iff}
use ocl_gprm.Kernel.Launch.{Device}

-- The packets in the transfer queues of unit `g` have gone to their destinations.
abbrev pub Delivered : ℕ → ℕ → Device → Device → Type 0
Delivered n g d d' =
    (i : ℕ)
    → i < n
    → (contents g i d'.rq n ≡ [])
      × (contents i g d'.q n ≡ push_all (contents g i d.rq n) (contents i g d.q n))

-- What unit `g` sends and has sent is as it was.
abbrev pub Kept : ℕ → ℕ → Device → Device → Type 0
Kept n g d d' =
    (i : ℕ)
    → i < n
    → (contents g i d'.rq n ≡ contents g i d.rq n) × (contents i g d'.q n ≡ contents i g d.q n)

-- No queue of either buffer has a packet.
abbrev pub NoPacket : ℕ → Device → Type 0
NoPacket n d = (a b : ℕ) → a < n → b < n → (contents a b d.q n ≡ []) × (contents a b d.rq n ≡ [])

push-length :
    (p : Packet) (l : List Packet) → (0 < length (push p l).1) × (length l ≤ length (push p l).1)
unfolding push
push-length p l =
    (ground (arith, length-append l (p ∷ [])), ground (arith, length-append l (p ∷ [])))

push_all-length : (ps l : List Packet) → length l ≤ length (push_all ps l)
push_all-length [] l = omega arith
push_all-length (p ∷ ps) l = omega (arith, (push-length p l).1, push_all-length ps (push p l).1)

push_all-nil : (ps l : List Packet) → push_all ps l ≡ [] → (ps ≡ []) × (l ≡ [])
push_all-nil [] l h = (refl, h)
push_all-nil (p ∷ ps) l h =
    absurd (omega (arith, (push-length p l).0, push_all-length ps (push p l).1, ap length h))

contents-is_empty :
    (a b n : ℕ) (q : Memory Packet)
    → a < n
    → b < n
    → AllValid q n
    → contents a b q n ≡ []
    → q_is_empty a b q n ≡ true
contents-is_empty a b n q ha hb ok h = elim (Bool-cases (q_is_empty a b q n)) [
  | inl e ↦ e
  | inr e ↦ absurd (omega (arith, ap length (sym h ∙ read-contents a b q n ha hb (ok a b ha hb) e)))
]

pub computation_complete-NoPacket :
    (n : ℕ) (d : Device)
    → AllValid d.rq n
    → AllValid d.q n
    → (computation_complete d.q d.rq n ≡ true) ↔ NoPacket n d
computation_complete-NoPacket n d ok_rq ok_q =
    let iff = computation_complete_iff d.q d.rq n in
    (
      (λ h a b ha hb.
          let (eq, erq) = iff.0 h a b ha hb in
          (contents-empty a b n ha hb d.q ok_q eq, contents-empty a b n ha hb d.rq ok_rq erq)),
      (λ h. iff.1 (λ a b ha hb. (
        contents-is_empty a b n d.q ha hb ok_q (h a b ha hb).0,
        contents-is_empty a b n d.rq ha hb ok_rq (h a b ha hb).1,
      ))),
    )

module _ (n : ℕ) where
  pub Delivered-trans :
      (g : ℕ) (d d1 d' : Device)
      → Delivered n g d d1
      → Delivered n g d1 d' ⊎ Kept n g d1 d'
      → Delivered n g d d'
  Delivered-trans g d d1 d' first (inl second) i hi = (
    (second i hi).0,
    (second i hi).1 ∙ ap (λ l. push_all l (contents i g d1.q n)) (first i hi).0 ∙ (first i hi).1,
  )
  Delivered-trans g d d1 d' first (inr second) i hi =
      ((second i hi).0 ∙ (first i hi).0, (second i hi).1 ∙ (first i hi).1)

  pub Kept-Delivered :
      (g : ℕ) (d d1 d' : Device) → Kept n g d d1 → Delivered n g d1 d' → Delivered n g d d'
  Kept-Delivered g d d1 d' first second i hi =
      ((second i hi).0, (second i hi).1 ∙ ap₂ push_all (first i hi).0 (first i hi).1)

  pub Kept-trans : (g : ℕ) (d d1 d' : Device) → Kept n g d d1 → Kept n g d1 d' → Kept n g d d'
  Kept-trans g d d1 d' first second i hi =
      ((second i hi).0 ∙ (first i hi).0, (second i hi).1 ∙ (first i hi).1)

  pub Moved-Kept :
      (g h : ℕ) (d d' : Device)
      → g < n
      → h < n
      → Moved g 0 n d.rq d.q d'.rq d'.q
      → g ≢ h
      → Kept n h d d'
  Moved-Kept g h d d' hg hh moved ne i hi =
      (moved.other_rq h i hh hi (inl ne), moved.other_q i h hi hh (inl ne))

  pub Moved-Delivered :
      (g : ℕ) (d d' : Device) → Moved g 0 n d.rq d.q d'.rq d'.q → Delivered n g d d'
  Moved-Delivered g d d' moved i hi =
      (moved.emptied i (omega arith) hi, moved.pushed i (omega arith) hi)

  -- Without a packet nothing can be delivered.
  pub NoPacket-Delivered :
      (g : ℕ) (d d' : Device)
      → g < n
      → Delivered n g d d' ⊎ Kept n g d d'
      → NoPacket n d'
      → Delivered n g d d'
  NoPacket-Delivered g d d' hg (inl delivered) none_left i hi = delivered i hi
  NoPacket-Delivered g d d' hg (inr kept) none_left i hi =
      let (rq_is, q_is) = kept i hi in
      let rq_none = (none_left g i hg hi).1 in
      let q_none = (none_left i g hi hg).0 in
      (rq_none, q_none ∙ sym (ap₂ push_all (sym rq_is ∙ rq_none) (sym q_is ∙ q_none)))

  -- Packets do not vanish.
  pub NoPacket-before :
      (d d' : Device)
      → ((g : ℕ) → g < n → Delivered n g d d' ⊎ Kept n g d d')
      → NoPacket n d'
      → NoPacket n d
  NoPacket-before d d' any none_left a b ha hb = (
    elim (any b hb) [
      | inl delivered ↦
          (push_all-nil (contents b a d.rq n) _
            (sym (delivered a ha).1 ∙ (none_left a b ha hb).0)).1
      | inr kept ↦ sym (kept a ha).1 ∙ (none_left a b ha hb).0
    ],
    elim (any a ha) [
      | inl delivered ↦
          (push_all-nil (contents a b d.rq n) _
            (sym (delivered b hb).1 ∙ (none_left b a hb ha).0)).0
      | inr kept ↦ sym (kept b hb).0 ∙ (none_left a b ha hb).1
    ],
  )

  pub NoPacket-after :
      (d d' : Device)
      → ((g : ℕ) → g < n → Delivered n g d d' ⊎ Kept n g d d')
      → NoPacket n d
      → NoPacket n d'
  NoPacket-after d d' any none_yet a b ha hb = (
    elim (any b hb) [
      | inl delivered ↦
          (delivered a ha).1 ∙ ap₂ push_all (none_yet b a hb ha).1 (none_yet a b ha hb).0
      | inr kept ↦ (kept a ha).1 ∙ (none_yet a b ha hb).0
    ],
    elim (any a ha) [
      | inl delivered ↦ (delivered b hb).0
      | inr kept ↦ (kept b hb).0 ∙ (none_yet a b ha hb).1
    ],
  )
