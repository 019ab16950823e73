-- ===== src/Tests/Loops.antt =====
-- The loop of launches, on two compute units of one thread each.
use mathlib.Core.List.Perm
use native.Mathlib.Decide.{ℕ_discrete}
use ocl_gprm.Base.{
  ℕ, ◌+◌, ◌*◌, ◌^◌, ◌≤◌, ◌<◌, ◌≡◌, ◌≢◌, ◌⊎◌, ◌↔◌, inl, inr, sym, ap, ◌∙◌, arith, some, store,
  get_bits, put_bits, refl, All, List, [], ◌∷◌, length,
}
use ocl_gprm.Packet.{
  Packet, pkt_create, pkt_set_type, pkt_set_source, pkt_set_arg_pos, pkt_set_sub,
  pkt_set_payload_type, pkt_set_payload, pkt_get_payload, pkt_get_sub,
}
use ocl_gprm.Queue.Window.{contents}
use ocl_gprm.Kernel.Progress.{IsInside}
use ocl_gprm.Host.Setup.Laws.{root_packet}
use ocl_gprm.Symbol.{symbol_get_kind, symbol_get_nargs, symbol_is_quoted}
use ocl_gprm.Subtask.Table.Stack.{available}
use ocl_gprm.Subtask.Table.Alloc.{Allocated-length}
use ocl_gprm.Kernel.{complete, reading, writing}
use ocl_gprm.Kernel.ReadPhase.{waiting}
use ocl_gprm.Kernel.Launch.{Device, launch}
use ocl_gprm.Kernel.Launch.Delivery.{NoPacket}
use ocl_gprm.Kernel.Launch.Read.{Emptied}
use ocl_gprm.Kernel.Sound.{IsWaiting}
use ocl_gprm.Kernel.Sound.Device.{IsConsistent}
use ocl_gprm.Host.CodeStore.{populate_code_store, load_packets, load_words, load_word}
use ocl_gprm.Host.Stream.RoundTrip.{file, IsWords}
use ocl_gprm.Host.Packets.RoundTrip.{Source, body, all_words}
use ocl_gprm.Host.Setup.{pkt_base_init}
use ocl_gprm.Host.Main.{Prepared, prepare}
use ocl_gprm.Host.Main.Laws.{Ready, prepare-Ready}
use ocl_gprm.Host.Loop.{upload, nd_range, toggled, start, round}
use ocl_gprm.Host.Loop.Laws.{Reach-progress}
use ocl_gprm.Host.Loop.Start.{IsRunnable, upload-IsConsistent}
use ocl_gprm.Host.Loop.Program.{program-IsConsistent}
use ocl_gprm.Tests.Programs.{fresh_arrays, empty_store}

-- The code at address 1 asks unit 1 for the code at address 2, which has the value 5.
abbrev pub calls : List Source
calls =
    record {
      type = 0x0200;
      low = 0;
      second = 0;
      third = 2 ^ 32;
      payload = (2 ^ 32 + 257) ∷ (4 * 2 ^ 60 + 2 * 2 ^ 32 + 2 * 2 ^ 24) ∷ [];
    }
    ∷ record {
      type = 0x0200;
      low = 0;
      second = 0;
      third = 2 * 2 ^ 32;
      payload = (2 ^ 32 + 257) ∷ (6 * 2 ^ 60 + 5) ∷ [];
    }
    ∷ record { type = 0x0300; low = 0; second = 0; third = 2 ^ 32; payload = [] }
    ∷ []

pub calls-IsWords : IsWords ((length calls * 2 ^ 48 + 0) ∷ body calls)
calls-IsWords = (
  omega arith,
  (
    omega arith,
    (
      omega arith,
      (
        omega arith,
        (
          omega arith,
          (
            omega arith,
            (
              omega arith,
              (
                omega arith,
                (
                  omega arith,
                  (omega arith, (omega arith, (omega arith, (omega arith, (omega arith, tt))))),
                ),
              ),
            ),
          ),
        ),
      ),
    ),
  ),
)

calls_wait :
    let (root_address, code_store) = populate_code_store (all_words calls) empty_store in
    IsWaiting code_store root_address
unfolding populate_code_store load_packets load_words load_word store symbol_get_nargs
    symbol_get_kind symbol_is_quoted get_bits
calls_wait = omega arith

pub calls-IsRunnable : IsRunnable 2 (all_words calls) fresh_arrays
calls-IsRunnable = record {
  some_unit = omega arith;
  few_units = omega arith;
  waiting = calls_wait;
  returns = λ g i h. inl (omega arith);
}

pub prepared :
    (p : Prepared) × (prepare 2
        (some (file ((length calls * 2 ^ 48 + 0) ∷ body calls)))
        fresh_arrays
      ≡ some p)
    × Ready 2 (all_words calls) fresh_arrays p
prepared =
    prepare-Ready 2 calls 0 fresh_arrays (omega arith) (omega arith) (omega arith)
      (
        (omega arith, omega arith, omega arith),
        ((omega arith, omega arith, omega arith), ((omega arith, omega arith, omega arith), tt)),
      )
      (omega arith) calls-IsWords

abbrev pub first_device : Device
first_device = upload prepared.0 empty_store

abbrev pub no_values : ℕ → ℕ → Packet
no_values group thread = pkt_base_init

pub first-IsConsistent : IsConsistent 2 prepared.0.code_store first_device
first-IsConsistent =
    upload-IsConsistent 2 (all_words calls) fresh_arrays prepared.0 empty_store calls-IsRunnable
      prepared.2

first_waiting :
    (g : ℕ)
    → g < 2
    → waiting g 2 0 first_device.q 2 ≤ length (available (first_device.subtask_list g))
first_waiting g h =
    let ready = prepared.2 in
    let left = Allocated-length [] (first_device.subtask_list g) ((ready.tables g h).1) in
    elim (ℕ_discrete g 0) [
      | yes e ↦
          rw (e, ready.root, ready.others 0 1 (omega arith) (omega arith) (inr (omega arith)))
            (omega (arith, left, ap (λ i. length (available (first_device.subtask_list i))) e))
      | no ne ↦
          rw
            (
              ready.others g 0 h (omega arith) (inl (omega arith)),
              ready.others g 1 h (omega arith) (inl (omega arith)),
            )
            (omega arith)
    ]

-- The root packet asks for code of one argument.
calls-IsInside :
    let (root_address, code_store) = populate_code_store (all_words calls) empty_store in
    IsInside code_store (root_packet root_address)
unfolding populate_code_store load_packets load_words load_word store symbol_get_nargs get_bits
    put_bits pkt_create pkt_set_type pkt_set_source pkt_set_arg_pos pkt_set_sub pkt_set_payload_type
    pkt_set_payload pkt_get_payload pkt_get_sub
calls-IsInside = λ type. omega arith

first-IsInside :
    (g j : ℕ) → g < 2 → j < 2 → All (IsInside prepared.0.code_store) (contents g j first_device.q 2)
first-IsInside g j hg hj =
    let ready = prepared.2 in
    elim (ℕ_discrete g 0) [
      | yes e ↦ elim (ℕ_discrete j 0) [
        | yes f ↦ rw (e, f, ready.root, ready.code) (calls-IsInside, tt)
        | no ne ↦ rw (ready.others g j hg hj (inr ne)) tt
      ]
      | no ne ↦ rw (ready.others g j hg hj (inl ne)) tt
    ]

pub first_going : first_device.state ≢ complete
first_going e = let f = sym (prepared.2.start) ∙ e in cc

pub first_launch :
    (d' : Device) × (launch (nd_range 2 1 no_values) 2 prepared.0.code_store first_device ≡ some d')
    × (((first_device.state ≡ reading) × ((g : ℕ) → g < 2 → Emptied 2 g d'))
        ⊎ ((first_device.state ≡ writing) × ((d'.state ≡ complete) ↔ NoPacket 2 first_device)))
first_launch =
    Reach-progress 2 1 prepared.0.code_store (omega arith) first-IsConsistent start no_values
      (nd_range 2 1 no_values) (Perm.refl (nd_range 2 1 no_values)) (omega arith) (omega arith)
      first_going (λ e. (refl, first_waiting, first-IsInside))

abbrev pub second_device : Device
second_device = toggled (first_launch.0)

Reach-progress_example :
    (d' : Device) × (launch (nd_range 2 1 no_values) 2 prepared.0.code_store first_device ≡ some d')
    × (((first_device.state ≡ reading) × ((g : ℕ) → g < 2 → Emptied 2 g d'))
        ⊎ ((first_device.state ≡ writing) × ((d'.state ≡ complete) ↔ NoPacket 2 first_device)))
Reach-progress_example =
    Reach-progress 2 1 prepared.0.code_store (omega arith) first-IsConsistent start no_values
      (nd_range 2 1 no_values) (Perm.refl (nd_range 2 1 no_values)) (omega arith) (omega arith)
      first_going (λ e. (refl, first_waiting, first-IsInside))

program-IsConsistent_example : IsConsistent 2 prepared.0.code_store second_device
program-IsConsistent_example =
    program-IsConsistent 2 1 calls 0 fresh_arrays empty_store (omega arith)
      (
        (omega arith, omega arith, omega arith),
        ((omega arith, omega arith, omega arith), ((omega arith, omega arith, omega arith), tt)),
      )
      (omega arith) calls-IsWords calls-IsRunnable prepared.1
      (round no_values (nd_range 2 1 no_values) start first_going
        (Perm.refl (nd_range 2 1 no_values)) (first_launch.1))
