-- ===== src/Kernel/Network/Read.antt =====
-- The turns of a launch in state READ, and what they leave for the units.
use mathlib.Core.Path.{subst}
use ocl_gprm.Base.{
  ℕ, ◌≡◌, inl, inr, refl, sym, Ensures, Ensures-then, Ensures-any, Ensures-weaken, ==_self, ◌==◌,
  if-both, Memory, List, [], ◌∷◌,
}
use ocl_gprm.WorkItem.{WorkItem}
use ocl_gprm.Packet.{Packet}
use ocl_gprm.Kernel.{reading}
use ocl_gprm.Kernel.Launch.Read.{HasItem}
use ocl_gprm.Kernel.Network.{Own, Network, handle_all, arrived, read_unit, turn_in, turn, turns}

abbrev pub NothingFor : ℕ → Network → Type 0
NothingFor a s = (b : ℕ) → s.received a b ≡ []

-- The turns have emptied what units `Done` have received, and filled nothing.
pub record Cleared (Done : ℕ → Type 0) (s s' : Network) : Type 0 where
  pub state : s'.state ≡ reading
  pub done : (a : ℕ) → Done a → NothingFor a s'
  pub kept : (a : ℕ) → NothingFor a s → NothingFor a s'

module _ (n : ℕ) (c_store : Memory ℕ) where
  read_unit-Cleared :
      (w : WorkItem) (s : Network)
      → s.state ≡ reading
      → Ensures (Cleared (λ a. w.group_id ≡ a) s) (read_unit w n c_store s)
  unfolding read_unit
  read_unit-Cleared w s e =
      let own : Own = record { sent = s.sent; table = s.tables w.group_id; mem = s.mem } in
      let o = handle_all w n c_store (arrived w.group_id n 0 s.received) own in
      Ensures-then (λ (own' : Own). Unit {0}) (Cleared (λ a. w.group_id ≡ a) s) o _ (Ensures-any o)
        (λ own' _. record {
          state = e;
          done = λ a at b. rw (sym at, ==_self w.group_id) refl;
          kept = λ a nothing b.
              if-both (λ (l : List Packet). l ≡ []) (w.group_id == a) refl (nothing b);
        })

  turn-Cleared :
      (w : WorkItem) (s : Network)
      → s.state ≡ reading
      → Ensures (Cleared (λ a. w.group_id ≡ a) s) (turn w n c_store s)
  unfolding turn
  turn-Cleared w s e =
      subst (λ now. Ensures (Cleared (λ a. w.group_id ≡ a) s) (turn_in now w n c_store s)) (sym e)
        (read_unit-Cleared w s e)

  pub turns-Cleared :
      (ws : List WorkItem) (s : Network)
      → s.state ≡ reading
      → Ensures (Cleared (λ a. HasItem a ws) s) (turns ws n c_store s)
  unfolding turns
  turns-Cleared [] s e = record {
    state = e;
    done = λ a none_done. absurd none_done;
    kept = λ a nothing. nothing;
  }
  turns-Cleared (w ∷ ws) s e =
      Ensures-then (Cleared (λ a. w.group_id ≡ a) s) (Cleared (λ a. HasItem a (w ∷ ws)) s)
        (turn w n c_store s) _ (turn-Cleared w s e)
        (λ s1 first.
          Ensures-weaken (Cleared (λ a. HasItem a ws) s1) (Cleared (λ a. HasItem a (w ∷ ws)) s)
            (turns ws n c_store s1)
            (λ s' rest. record {
              state = rest.state;
              done = λ a has. elim has [
                | inl at ↦ rest.kept a (first.done a at)
                | inr later ↦ rest.done a later
              ];
              kept = λ a nothing. rest.kept a (first.kept a nothing);
            })
            (turns-Cleared ws s1 first.state))
