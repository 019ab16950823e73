-- ===== src/Host/Loop/Program.antt =====
-- From a program's file to every device that its run can reach.
use mathlib.Core.Path.{subst}
use ocl_gprm.Base.{
  ℕ, ◌+◌, ◌*◌, ◌^◌, ◌<◌, ◌≡◌, arith, sym, some, Ensures, Ensures-some, Memory, List, ◌∷◌, length,
}
use ocl_gprm.Kernel.Launch.{Device}
use ocl_gprm.Kernel.Sound.Device.{IsConsistent}
use ocl_gprm.Host.Main.{Prepared, prepare}
use ocl_gprm.Host.Main.Laws.{Ready, prepare-Ready}
use ocl_gprm.Host.Stream.RoundTrip.{file, IsWords}
use ocl_gprm.Host.Packets.RoundTrip.{Source, AllSources, body, all_words}
use ocl_gprm.Host.Loop.{upload, Reach}
use ocl_gprm.Host.Loop.Laws.{Reach-IsConsistent}
use ocl_gprm.Host.Loop.Start.{IsRunnable, upload-IsConsistent}

-- What is prepared from a program's file is ready.
pub program-Ready :
    (n : ℕ) (ss : List Source) (low : ℕ) (fresh : Prepared) {p : Prepared}
    → length ss < 2 ^ 16
    → AllSources ss
    → low < 2 ^ 48
    → IsWords ((length ss * 2 ^ 48 + low) ∷ body ss)
    → IsRunnable n (all_words ss) fresh
    → prepare n (some (file ((length ss * 2 ^ 48 + low) ∷ body ss))) fresh ≡ some p
    → Ready n (all_words ss) fresh p
program-Ready n ss low fresh few ok h words runnable e =
    let (p1, e1, ready1) =
      prepare-Ready n ss low fresh runnable.some_unit (omega (arith, runnable.few_units)) few ok h
        words in
    Ensures-some (Ready n (all_words ss) fresh)
      (subst (Ensures (Ready n (all_words ss) fresh)) (sym e1) ready1) e

-- A program of at most 65535 packets, each with a payload below 65536 words and all words of 64
-- bits, is read and prepared for at least 1 and at most 256 compute units; the code at its root
-- address waits for an argument, and each record that `new` returned answers to a unit or to the
-- host. Then on every device that launches reach each of which returns, with all work-items one
-- after another in whatever order (none returns on code of more than 31 arguments or at the barrier
-- of a group of more than one work-item), all queues of both buffers are valid, each reference
-- packet in them comes from a unit, or from the host and then its code waits for an argument, the
-- stack pointer of each unit's table is inside the stack, and each of its records answers to a unit
-- or to the host.
pub program-IsConsistent :
    (n nth : ℕ) (ss : List Source) (low : ℕ) (fresh : Prepared) (user_data : Memory ℕ)
    {p : Prepared} {d : Device}
    → length ss < 2 ^ 16
    → AllSources ss
    → low < 2 ^ 48
    → IsWords ((length ss * 2 ^ 48 + low) ∷ body ss)
    → IsRunnable n (all_words ss) fresh
    → prepare n (some (file ((length ss * 2 ^ 48 + low) ∷ body ss))) fresh ≡ some p
    → Reach n nth p.code_store (upload p user_data) d
    → IsConsistent n p.code_store d
program-IsConsistent n nth ss low fresh user_data {p} few ok h words runnable e r =
    let ready = program-Ready n ss low fresh few ok h words runnable e in
    Reach-IsConsistent n nth p.code_store runnable.few_units
      (upload-IsConsistent n (all_words ss) fresh p user_data runnable ready) r
