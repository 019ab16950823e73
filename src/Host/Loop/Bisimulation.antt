-- ===== src/Host/Loop/Bisimulation.antt =====
-- The loop of launches of src/VM.cpp `main`, and the same loop on the network.
use mathlib.Core.List.{Perm}
use ocl_gprm.Base.Grid.{pair_cases}
use ocl_gprm.Base.{
  ℕ, ◌+◌, ◌*◌, ◌^◌, ◌≤◌, ◌<◌, ◌≡◌, ◌≢◌, inl, inr, refl, sym, ap, ◌∙◌, Agree, Agree-some, Agree-flip,
  some, Memory, List, [], ◌∷◌, ◌==◌, ==_of_ne, if◌then◌else◌, if-both, length,
}
use ocl_gprm.WorkItem.{WorkItem}
use ocl_gprm.Packet.{Packet}
use ocl_gprm.Kernel.{complete}
use ocl_gprm.Kernel.Launch.{Device, launch}
use ocl_gprm.Kernel.Sound.Device.{IsConsistent}
use ocl_gprm.Kernel.Network.{Network, turns}
use ocl_gprm.Kernel.Network.Launching.{Mirrors, launch-Refines}
use ocl_gprm.Host.CodeStore.{populate_code_store}
use ocl_gprm.Host.Setup.{toggle_state}
use ocl_gprm.Host.Setup.Laws.{root_packet}
use ocl_gprm.Host.Main.{Prepared, prepare}
use ocl_gprm.Host.Main.Laws.{Ready}
use ocl_gprm.Host.Stream.RoundTrip.{file, IsWords}
use ocl_gprm.Host.Packets.RoundTrip.{Source, AllSources, body, all_words}
use ocl_gprm.Host.Loop.{upload, nd_range, toggled, Reach, start, round}
use ocl_gprm.Host.Loop.Items.{nd_range-AllUnits}
use ocl_gprm.Host.Loop.Start.{IsRunnable, upload-IsConsistent}
use ocl_gprm.Host.Loop.Program.{program-Ready}

abbrev pub switched : Network → Network
switched s = record s { state = toggle_state s.state }

-- What rounds of turns by all work-items, in some order each, reach on the network.
pub data Runs (n nth : ℕ) (c_store : Memory ℕ) (first : Network) : Network → Type 0 where
  begin : Runs n nth c_store first first
  next :
      {s s' : Network} (uninit : ℕ → ℕ → Packet) (ws : List WorkItem)
      → Runs n nth c_store first s
      → s.state ≢ complete
      → Perm ws (nd_range n nth uninit)
      → turns ws n c_store s ≡ some s'
      → Runs n nth c_store first (switched s')

toggled-Mirrors :
    (n : ℕ) {d : Device} {s : Network} → Mirrors n d s → Mirrors n (toggled d) (switched s)
toggled-Mirrors n m = record {
  received = m.received;
  sent = m.sent;
  state = ap toggle_state m.state;
  tables = m.tables;
  mem = m.mem;
}

module _ (n nth : ℕ) (c_store : Memory ℕ) (few : n ≤ 256) {first : Device} {start_net : Network}
    (ok : IsConsistent n c_store first) (m : Mirrors n first start_net) where
  round-Agree :
      {d : Device} {s : Network} (uninit : ℕ → ℕ → Packet) (ws : List WorkItem)
      → Perm ws (nd_range n nth uninit)
      → IsConsistent n c_store d × Mirrors n d s
      → Agree
          (λ d' s'. IsConsistent n c_store d' × Mirrors n d' s')
          (launch ws n c_store d)
          (turns ws n c_store s)
  round-Agree {d} {s} uninit ws order h =
      launch-Refines n c_store few ws d s (nd_range-AllUnits n nth uninit ws order) h.0 h.1

  abbrev Same : Device → Network → Type 0
  Same d s = IsConsistent n c_store d × Mirrors n d s

  toggled-Same : {d : Device} {s : Network} → Same d s → Same (toggled d) (switched s)
  toggled-Same h = (record { q = h.0.q; rq = h.0.rq; tables = h.0.tables }, toggled-Mirrors n h.1)

  pub Reach-Runs :
      {d : Device}
      → Reach n nth c_store first d
      → (s : Network) × Runs n nth c_store start_net s × Same d s
  Reach-Runs start = (start_net, begin, (ok, m))
  Reach-Runs (round {d} {d'} uninit ws r going order e) =
      let (s, runs, same) = Reach-Runs r in
      let (s', e', same') = Agree-some Same _ (round-Agree uninit ws order same) e in
      (
        switched s',
        next uninit ws runs (λ over. going (same.1.state ∙ over)) order e',
        toggled-Same same',
      )

  pub Runs-Reach :
      {s : Network}
      → Runs n nth c_store start_net s
      → (d : Device) × Reach n nth c_store first d × Same d s
  Runs-Reach begin = (first, start, (ok, m))
  Runs-Reach (next {s} {s'} uninit ws r going order e) =
      let (d, reached, same) = Runs-Reach r in
      let (d', e', same') =
        Agree-some (λ s d. Same d s) _ (Agree-flip Same _ _ (round-Agree uninit ws order same)) e in
      (
        toggled d',
        round uninit ws reached (λ over. going (sym same.1.state ∙ over)) order e',
        toggled-Same same',
      )

-- The network with nothing on it but the root packet.
abbrev pub first_network : ℕ → Prepared → Memory ℕ → Network
first_network root p user_data = record {
  received = λ a b. if a == 0 then (if b == 0 then root_packet root ∷ [] else []) else [];
  sent = λ a b. [];
  state = p.state;
  tables = p.subtask_tables;
  mem = user_data;
}

upload-Mirrors :
    (n : ℕ) (packets : List (List ℕ)) (fresh p : Prepared) (user_data : Memory ℕ)
    → Ready n packets fresh p
    → Mirrors n
        (upload p user_data)
        (first_network (populate_code_store packets fresh.code_store).0 p user_data)
upload-Mirrors n packets fresh p user_data ready = record {
  received = record {
    valid = ready.valid;
    holds = λ a b ha hb. elim (pair_cases a b 0 0) [
      | inl (e, f) ↦ rw (e, f) ready.root
      | inr (inl ne) ↦ rw (==_of_ne a 0 ne) (ready.others a b ha hb (inl ne))
      | inr (inr ne) ↦ rw (==_of_ne b 0 ne) (
          ready.others a b ha hb (inr ne)
          ∙ if-both (λ (l : List Packet). [] ≡ l) (a == 0) refl refl)
    ];
  };
  sent = record {
    valid = λ a b ha hb. (ready.sent a b ha hb).0;
    holds = λ a b ha hb. (ready.sent a b ha hb).1;
  };
  state = refl;
  tables = refl;
  mem = refl;
}

-- A program of at most 65535 packets, each with a payload below 65536 words and all words of 64
-- bits, is read and prepared for at least 1 and at most 256 compute units; the code at its root
-- address waits for an argument, and each record that `new` returned answers to a unit or to the
-- host. Then every device that launches reach each of which returns, with all work-items one after
-- another in whatever order, shows a network that rounds of turns by the same work-items reach, each
-- turn of which ends, from the one on which there is only the root packet; and every network that
-- these reach is shown by a device that such launches reach. Neither a launch nor a turn ends on
-- code of more than 31 arguments or at the barrier of a group of more than one work-item.
pub program-Bisimulation :
    (n nth : ℕ) (ss : List Source) (low : ℕ) (fresh : Prepared) (user_data : Memory ℕ)
    {p : Prepared}
    → length ss < 2 ^ 16
    → AllSources ss
    → low < 2 ^ 48
    → IsWords ((length ss * 2 ^ 48 + low) ∷ body ss)
    → IsRunnable n (all_words ss) fresh
    → prepare n (some (file ((length ss * 2 ^ 48 + low) ∷ body ss))) fresh ≡ some p
    → let first = upload p user_data in
      let root = (populate_code_store (all_words ss) fresh.code_store).0 in
      let first_net = first_network root p user_data in
      ((d : Device)
        → Reach n nth p.code_store first d
        → (s : Network) × Runs n nth p.code_store first_net s × Mirrors n d s)
      × ((s : Network)
          → Runs n nth p.code_store first_net s
          → (d : Device) × Reach n nth p.code_store first d × Mirrors n d s)
program-Bisimulation n nth ss low fresh user_data {p} few ok h words runnable e =
    let ready = program-Ready n ss low fresh few ok h words runnable e in
    let same = upload-IsConsistent n (all_words ss) fresh p user_data runnable ready in
    let shown = upload-Mirrors n (all_words ss) fresh p user_data ready in
    (
      (λ d r.
          let (s, runs, both) = Reach-Runs n nth p.code_store runnable.few_units same shown r in
          (s, runs, both.1)),
      (λ s r.
          let (d, reached, both) = Runs-Reach n nth p.code_store runnable.few_units same shown r in
          (d, reached, both.1)),
    )
