-- ===== src/Tests/Networks.antt =====
-- The network beside the device, on the program of two units that `Loops` prepares.
use mathlib.Core.List.Perm
use mathlib.Core.Logic.{◌≢◌}
use ocl_gprm.Base.{ℕ, ◌<◌, ◌≡◌, ap, arith, some, Agree, Ensures-some, []}
use ocl_gprm.Queue.Window.{contents}
use ocl_gprm.Kernel.{reading, writing}
use ocl_gprm.Kernel.Launch.{Device, launch}
use ocl_gprm.Kernel.Launch.Item.{IsReading, launch-IsReading}
use ocl_gprm.Kernel.Sound.Device.{IsConsistent}
use ocl_gprm.Kernel.Network.{Network, turns}
use ocl_gprm.Kernel.Network.Launching.{Mirrors, shown, shown-Mirrors, launch-Refines}
use ocl_gprm.Host.CodeStore.{populate_code_store}
use ocl_gprm.Host.Packets.RoundTrip.{all_words}
use ocl_gprm.Host.Setup.{toggle_state}
use ocl_gprm.Host.Loop.{upload, nd_range, Reach, start, round}
use ocl_gprm.Host.Loop.Items.{nd_range-AllUnits}
use ocl_gprm.Host.Loop.Bisimulation.{Runs, first_network, program-Bisimulation}
use ocl_gprm.Host.Loop.Lossless.{NothingSent, NothingReceived, Reach-Phases, Reach-Lossless}
use ocl_gprm.Tests.Programs.{fresh_arrays, empty_store}
use ocl_gprm.Tests.Loops.{
  calls, calls-IsWords, calls-IsRunnable, prepared, first_device, no_values, first-IsConsistent,
  first_going, first_launch, second_device,
}

launch-Refines_example :
    Agree
      (λ d' s'. IsConsistent 2 prepared.0.code_store d' × Mirrors 2 d' s')
      (launch (nd_range 2 1 no_values) 2 prepared.0.code_store first_device)
      (turns (nd_range 2 1 no_values) 2 prepared.0.code_store (shown 2 first_device))
launch-Refines_example =
    launch-Refines 2 prepared.0.code_store (omega arith) (nd_range 2 1 no_values) first_device
      (shown 2 first_device)
      (nd_range-AllUnits 2 1 no_values (nd_range 2 1 no_values)
        (Perm.refl (nd_range 2 1 no_values)))
      first-IsConsistent (shown-Mirrors 2 prepared.0.code_store first_device first-IsConsistent)

program-Bisimulation_example :
    let p = prepared.0 in
    let first = upload p empty_store in
    let root = (populate_code_store (all_words calls) empty_store).0 in
    let first_net = first_network root p empty_store in
    ((d : Device)
      → Reach 2 1 p.code_store first d
      → (s : Network) × Runs 2 1 p.code_store first_net s × Mirrors 2 d s)
    × ((s : Network)
        → Runs 2 1 p.code_store first_net s
        → (d : Device) × Reach 2 1 p.code_store first d × Mirrors 2 d s)
program-Bisimulation_example =
    program-Bisimulation 2 1 calls 0 fresh_arrays empty_store (omega arith)
      (
        (omega arith, omega arith, omega arith),
        ((omega arith, omega arith, omega arith), ((omega arith, omega arith, omega arith), tt)),
      )
      (omega arith) calls-IsWords calls-IsRunnable prepared.1

second_reached : Reach 2 1 prepared.0.code_store first_device second_device
second_reached =
    round no_values (nd_range 2 1 no_values) start first_going (Perm.refl (nd_range 2 1 no_values))
      first_launch.1

second_writing : second_device.state ≡ writing
unfolding toggle_state
second_writing = ap toggle_state {y = reading} (
    Ensures-some IsReading
      (launch-IsReading 2 prepared.0.code_store (nd_range 2 1 no_values) first_device
        prepared.2.start)
      first_launch.1)

Reach-Lossless_example :
    (d' : Device) × (launch (nd_range 2 1 no_values) 2 prepared.0.code_store second_device
      ≡ some d')
    × ((a b : ℕ)
        → a < 2
        → b < 2
        → (contents b a d'.q 2 ≡ contents a b second_device.rq 2) × (contents a b d'.rq 2 ≡ []))
Reach-Lossless_example =
    Reach-Lossless 2 1 prepared.0.code_store (omega arith) (omega arith) first-IsConsistent
      prepared.2.start second_reached second_writing no_values (nd_range 2 1 no_values)
      (Perm.refl (nd_range 2 1 no_values))

Reach-Phases_example :
    (second_device.state ≢ writing → NothingSent 2 second_device)
    × (second_device.state ≢ reading → NothingReceived 2 second_device)
Reach-Phases_example =
    Reach-Phases 2 1 prepared.0.code_store (omega arith) (omega arith) first-IsConsistent
      prepared.2.start (λ a b ha hb. (prepared.2.sent a b ha hb).1) second_reached
