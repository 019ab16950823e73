-- ===== src/Host/Loop/Start.antt =====
-- What `main` prepares is a consistent device.
use mathlib.Core.Path.{subst}
use ocl_gprm.Base.Grid.{pair_cases}
use ocl_gprm.Base.{ℕ, ◌≤◌, ◌<◌, inl, inr, sym, Memory, List}
use ocl_gprm.Macros.{reference, return_address}
use ocl_gprm.Packet.Fields.{pkt_create-fields}
use ocl_gprm.Subtask.Record.{SubtaskRecord}
use ocl_gprm.Kernel.Sound.{IsWaiting, IsAnswerable, IsReturn}
use ocl_gprm.Kernel.Sound.Device.{IsConsistent}
use ocl_gprm.Host.CodeStore.{populate_code_store}
use ocl_gprm.Host.Setup.{pkt_base_init}
use ocl_gprm.Host.Setup.Laws.{root_packet}
use ocl_gprm.Host.Main.{Prepared}
use ocl_gprm.Host.Main.Laws.{Ready}
use ocl_gprm.Host.Loop.{upload}

-- The code at the address waits for an argument, so that nothing is sent to the source of the root
-- packet; and what `new` returned is such that each record answers to a unit, or to the host.
pub record IsRunnable (n : ℕ) (packets : List (List ℕ)) (fresh : Prepared) : Type 0 where
  pub some_unit : 0 < n
  pub few_units : n ≤ 256
  pub waiting :
      let (root_address, code_store) = populate_code_store packets fresh.code_store in
      IsWaiting code_store root_address
  pub returns : (g i : ℕ) → g < n → IsReturn n ((fresh.subtask_tables g).recs i).return_to

root_packet-IsAnswerable :
    (n root : ℕ) (c_store : Memory ℕ)
    → IsWaiting c_store root
    → IsAnswerable n c_store (root_packet root)
root_packet-IsAnswerable n root c_store waiting type =
    let fields = pkt_create-fields pkt_base_init reference return_address 0 0 root in
    inr (fields.1, subst (IsWaiting c_store) (sym fields.4) waiting)

module _ (n : ℕ) (packets : List (List ℕ)) (fresh p : Prepared) (user_data : Memory ℕ)
    (ok : IsRunnable n packets fresh) (ready : Ready n packets fresh p) where
  -- The device before the first launch.
  pub upload-IsConsistent : IsConsistent n p.code_store (upload p user_data)
  upload-IsConsistent = record {
    q = record {
      valid = ready.valid;
      packets = λ a b ha hb. elim (pair_cases a b 0 0) [
        | inl (e, f) ↦
            rw (e, f, ready.root, ready.code)
              (
                root_packet-IsAnswerable n (populate_code_store packets fresh.code_store).0
                    (populate_code_store packets fresh.code_store).1 ok.waiting,
                tt,
              )
        | inr ne ↦ rw (ready.others a b ha hb ne) tt
      ];
    };
    rq = record {
      valid = λ a b ha hb. (ready.sent a b ha hb).0;
      packets = λ a b ha hb. rw ((ready.sent a b ha hb).1) tt;
    };
    tables = λ g h. record {
      stack = (ready.tables g h).0;
      returns =
          subst (λ (m : Memory SubtaskRecord). (i : ℕ) → IsReturn n (m i).return_to)
            (sym (ready.records g h)) (λ i. ok.returns g i h);
    };
  }
