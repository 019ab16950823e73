-- ===== src/Kernel/Launch/Write.antt =====
-- A launch in state WRITE by all compute units.
use native.Mathlib.Decide.{ℕ_discrete}
use ocl_gprm.Base.{
  ℕ, ◌<◌, ◌≡◌, ◌⊎◌, ◌↔◌, inl, inr, refl, sym, ap, ◌∙◌, Memory, store, Bool-cases, some, List, [],
  ◌∷◌, if◌then◌else◌,
}
use mathlib.Core.Path.{subst}
use ocl_gprm.WorkItem.{WorkItem}
use ocl_gprm.Queue.Frame.{AllValid}
use ocl_gprm.Queue.Transfer.{computation_complete}
use ocl_gprm.Kernel.{complete, writing}
use ocl_gprm.Kernel.WritePhase.{vm_write-returns}
use ocl_gprm.Kernel.Launch.{Device, view, put_back, run_item, launch}
use ocl_gprm.Kernel.Launch.Item.{vm-writing, vm-idle, run_item-same, launch-complete}
use ocl_gprm.Kernel.Launch.Delivery.{
  Delivered, Kept, NoPacket, computation_complete-NoPacket, Delivered-trans, Kept-Delivered,
  Kept-trans, Moved-Kept, Moved-Delivered, NoPacket-Delivered, NoPacket-before, NoPacket-after,
}

-- The first work-item of unit `g` is among those of the launch.
abbrev pub HasFirst : ℕ → List WorkItem → Type 0
HasFirst g [] = ⊥
HasFirst g (w ∷ ws) = ((w.group_id ≡ g) × (w.local_id ≡ 0)) ⊎ HasFirst g ws

abbrev pub AllUnits : ℕ → List WorkItem → Type 0
AllUnits n [] = Unit {0}
AllUnits n (w ∷ ws) = (w.group_id < n) × AllUnits n ws

-- What a launch in state WRITE has done, when it has had the first work-items of the units `Done`.
pub record Written (n : ℕ) (Done : ℕ → Type 0) (d d' : Device) : Type 0 where
  pub valid_rq : AllValid d'.rq n
  pub valid_q : AllValid d'.q n
  pub done : (g : ℕ) → g < n → Done g → Delivered n g d d'
  pub any : (g : ℕ) → g < n → Delivered n g d d' ⊎ Kept n g d d'
  pub state :
      ((d'.state ≡ writing) × ((g : ℕ) → g < n → Done g → ¬ NoPacket n d'))
      ⊎ ((d'.state ≡ complete) × NoPacket n d')

module _ (n : ℕ) where
  -- One work-item.
  run_item-Written :
      (w : WorkItem) (c_store : Memory ℕ) (d : Device)
      → w.group_id < n
      → AllValid d.rq n
      → AllValid d.q n
      → d.state ≡ writing
      → (d' : Device) × (run_item w n c_store d ≡ some d')
        × Written n (λ g. (w.group_id ≡ g) × (w.local_id ≡ 0)) d d'
  unfolding run_item store
  run_item-Written w c_store d hg ok_rq ok_q e = elim (ℕ_discrete w.local_id 0) [
    | yes first ↦
        let (b', eq, moved, st, _, _) = vm_write-returns w n hg (view w d) ok_rq ok_q in
        let d' = put_back w d b' in
        (
          d',
          rw (vm-writing w n c_store (view w d) e first, eq, run_item) refl,
          record {
            valid_rq = moved.valid_rq;
            valid_q = moved.valid_q;
            done = λ g hg' p.
                subst (λ g. Delivered n g d d') p.0 (Moved-Delivered n w.group_id d d' moved);
            any = λ g hg'. elim (ℕ_discrete w.group_id g) [
              | yes same ↦
                  inl
                    (subst (λ g. Delivered n g d d') same (Moved-Delivered n w.group_id d d' moved))
              | no ne ↦ inr (Moved-Kept n w.group_id g d d' hg hg' moved ne)
            ];
            state = elim (Bool-cases (computation_complete b'.q b'.global.rq n)) [
              | inl c ↦ inr (
                st ∙ ap (λ t. if t then complete else d.state) c,
                (computation_complete-NoPacket n d' moved.valid_rq moved.valid_q).0 c,
              )
              | inr c ↦ inl (
                st ∙ ap (λ t. if t then complete else d.state) c ∙ e,
                λ g hg' p none_left. cc (
                  c,
                  (computation_complete-NoPacket n d' moved.valid_rq moved.valid_q).1 none_left,
                ),
              )
            ];
          },
        )
    | no other ↦ (
      d,
      run_item-same w n c_store d (vm-idle w n c_store (view w d) e other),
      record {
        valid_rq = ok_rq;
        valid_q = ok_q;
        done = λ g hg p. absurd (other p.1);
        any = λ g hg. inr (λ i hi. (refl, refl));
        state = inl (e, λ g hg p. absurd (other p.1));
      },
    )
  ]

  Written-trans :
      {P Q : ℕ → Type 0} {d d1 d' : Device}
      → Written n P d d1
      → ((g : ℕ) → g < n → P g → ¬ NoPacket n d1)
      → Written n Q d1 d'
      → Written n (λ g. P g ⊎ Q g) d d'
  Written-trans {P} {Q} {d} {d1} {d'} s some_left t = record {
    valid_rq = t.valid_rq;
    valid_q = t.valid_q;
    done = λ g hg h. elim h [
      | inl p ↦ Delivered-trans n g d d1 d' (s.done g hg p) (t.any g hg)
      | inr q ↦ elim (s.any g hg) [
        | inl delivered ↦ Delivered-trans n g d d1 d' delivered (t.any g hg)
        | inr kept ↦ Kept-Delivered n g d d1 d' kept (t.done g hg q)
      ]
    ];
    any = λ g hg. elim (s.any g hg) [
      | inl delivered ↦ inl (Delivered-trans n g d d1 d' delivered (t.any g hg))
      | inr kept ↦ elim (t.any g hg) [
        | inl delivered ↦ inl (Kept-Delivered n g d d1 d' kept delivered)
        | inr kept' ↦ inr (Kept-trans n g d d1 d' kept kept')
      ]
    ];
    state = elim t.state [
      | inl (going, left) ↦ inl (
        going,
        λ g hg h none_left. elim h [
          | inl p ↦ some_left g hg p (NoPacket-before n d1 d' t.any none_left)
          | inr q ↦ left g hg q none_left
        ],
      )
      | inr ended ↦ inr ended
    ];
  }

  -- When the state has become COMPLETE, the other work-items have nothing to do.
  Written-complete :
      {P : ℕ → Type 0} (Q : ℕ → Type 0) (d d' : Device)
      → Written n P d d'
      → d'.state ≡ complete
      → NoPacket n d'
      → Written n (λ g. P g ⊎ Q g) d d'
  Written-complete Q d d' s ended none_left = record {
    valid_rq = s.valid_rq;
    valid_q = s.valid_q;
    done = λ g hg h. NoPacket-Delivered n g d d' hg (s.any g hg) none_left;
    any = s.any;
    state = inr (ended, none_left);
  }

  -- A launch in state WRITE, with all queues valid, by work-items of the `n` compute units that run
  -- one after the other in any order, returns with all queues valid. The transfer queues of each
  -- unit whose first work-item was among them are empty, and their packets have been pushed to the
  -- queues of their destinations; those of any other unit have been delivered likewise, or are as
  -- before with what it has sent. The state is WRITE still, and then packets are left if any first
  -- work-item was among them, or it is COMPLETE, and then none is.
  pub launch-Written :
      (ws : List WorkItem) (c_store : Memory ℕ) (d : Device)
      → AllUnits n ws
      → AllValid d.rq n
      → AllValid d.q n
      → d.state ≡ writing
      → (d' : Device) × (launch ws n c_store d ≡ some d') × Written n (λ g. HasFirst g ws) d d'
  unfolding launch
  launch-Written [] c_store d units ok_rq ok_q e = (
    d,
    refl,
    record {
      valid_rq = ok_rq;
      valid_q = ok_q;
      done = λ g hg p. absurd p;
      any = λ g hg. inr (λ i hi. (refl, refl));
      state = inl (e, λ g hg p. absurd p);
    },
  )
  launch-Written (w ∷ ws) c_store d units ok_rq ok_q e =
      let (d1, eq, s) = run_item-Written w c_store d units.0 ok_rq ok_q e in
      elim s.state [
        | inl (going, some_left) ↦
            let (d', eq', t) = launch-Written ws c_store d1 units.1 s.valid_rq s.valid_q going in
            (d', rw (eq, launch) eq', Written-trans s some_left t)
        | inr (ended, none_left) ↦ (
          d1,
          rw (eq, launch) (launch-complete n ws c_store d1 ended),
          Written-complete (λ g. HasFirst g ws) d d1 s ended none_left,
        )
      ]

  -- A launch in state WRITE of `n` compute units, at least one, by work-items that run one after the
  -- other in any order and among which is the first of every unit, with all queues valid, returns;
  -- the state is COMPLETE afterwards exactly when there was no packet in any queue of either buffer
  -- before.
  pub launch-complete_iff :
      (ws : List WorkItem) (c_store : Memory ℕ) (d : Device)
      → 0 < n
      → AllUnits n ws
      → ((g : ℕ) → g < n → HasFirst g ws)
      → AllValid d.rq n
      → AllValid d.q n
      → d.state ≡ writing
      → (d' : Device) × (launch ws n c_store d ≡ some d') × ((d'.state ≡ complete) ↔ NoPacket n d)
  launch-complete_iff ws c_store d pos units all ok_rq ok_q e =
      let (d', eq, s) = launch-Written ws c_store d units ok_rq ok_q e in
      (
        d',
        eq,
        (
          (λ h. elim s.state [
            | inl (going, _) ↦ absurd (writing-ne (sym going ∙ h))
            | inr (_, none_left) ↦ NoPacket-before n d d' s.any none_left
          ]),
          (λ none_yet. elim s.state [
            | inl (_, some_left) ↦
                absurd (some_left 0 pos (all 0 pos) (NoPacket-after n d d' s.any none_yet))
            | inr (ended, _) ↦ ended
          ]),
        ),
      )
    where
      writing-ne : writing ≡ complete → ⊥
      writing-ne h = cc
