-- ===== src/Kernel/Network/Quiet.antt =====
-- kernels/VM.cl `computation_complete`, beside `none_left` on the network.
use native.Mathlib.Decide.{ℕ_discrete}
use ocl_gprm.Base.{
  ℕ, zero, suc, ◌<◌, ◌≡◌, inl, inr, refl, sym, ◌∙◌, arith, Bool, true, false, ◌&&◌, Bool-cases,
  Memory,
}
use ocl_gprm.Packet.{Packet}
use ocl_gprm.Queue.{q_is_empty}
use ocl_gprm.Queue.Fifo.{read-contents}
use ocl_gprm.Queue.Transfer.{computation_complete}
use ocl_gprm.Queue.Transfer.Laws.{contents-empty}
use ocl_gprm.Queue.Transfer.Complete.{computation_complete_iff}
use ocl_gprm.Kernel.Network.{Packets, all_below, is_nil, none_left}
use ocl_gprm.Kernel.Network.Shows.{Shows}

&&-elim : (a b : Bool) → (a && b) ≡ true → (a ≡ true) × (b ≡ true)
&&-elim true b h = (refl, h)
&&-elim false b h = (h, absurd (ground arith))

same_Bool : (a b : Bool) → (a ≡ true → b ≡ true) → (b ≡ true → a ≡ true) → a ≡ b
same_Bool true b f g = sym (f refl)
same_Bool false true f g = g refl
same_Bool false false f g = refl

all_below-elim : (n : ℕ) (f : ℕ → Bool) → all_below n f ≡ true → (k : ℕ) → k < n → f k ≡ true
all_below-elim zero f h k hk = absurd (omega arith)
all_below-elim (suc n) f h k hk =
    let (before, last) = &&-elim (all_below n f) (f n) h in
    elim (ℕ_discrete k n) [ yes e ↦ rw e last | no ne ↦ all_below-elim n f before k (omega arith) ]

all_below-intro : (n : ℕ) (f : ℕ → Bool) → ((k : ℕ) → k < n → f k ≡ true) → all_below n f ≡ true
all_below-intro zero f h = refl
all_below-intro (suc n) f h =
    rw (all_below-intro n f (λ k hk. h k (omega arith)), h n (omega arith)) refl

module _ (n : ℕ) where
  is_nil-Shows :
      {q : Memory Packet} {net : Packets}
      → Shows n q net
      → (a b : ℕ) → a < n
      → b < n
      → q_is_empty a b q n ≡ is_nil (net a b)
  is_nil-Shows {q} {net} s a b ha hb =
      rw (sym (s.holds a b ha hb)) (elim (Bool-cases (q_is_empty a b q n)) [
        | inl e ↦ rw (contents-empty a b n ha hb q s.valid e) e
        | inr e ↦ rw (read-contents a b q n ha hb (s.valid a b ha hb) e) e
      ])

  -- `computation_complete` finds nothing exactly when the network has nothing.
  pub computation_complete-Shows :
      {q rq : Memory Packet} {received sent : Packets}
      → Shows n q received
      → Shows n rq sent
      → computation_complete q rq n ≡ none_left n received sent
  computation_complete-Shows {q} {rq} {received} {sent} r s =
      let iff = computation_complete_iff q rq n in
      same_Bool (computation_complete q rq n) (none_left n received sent)
        (λ done. all_below-intro n _ (λ a ha. all_below-intro n _ (λ b hb.
          let empty = iff.0 done a b ha hb in
          rw (sym (is_nil-Shows r a b ha hb), sym (is_nil-Shows s a b ha hb), empty.0, empty.1)
            refl)))
        (λ none. iff.1 (λ a b ha hb.
          let both =
            &&-elim (is_nil (received a b)) (is_nil (sent a b))
              (all_below-elim n _ (all_below-elim n _ none a ha) b hb) in
          (is_nil-Shows r a b ha hb ∙ both.0, is_nil-Shows s a b ha hb ∙ both.1)))
