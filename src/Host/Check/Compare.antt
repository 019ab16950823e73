-- ===== src/Host/Check/Compare.antt =====
-- The counts of the comparison.
use ocl_gprm.Base.{
  Bool-cases, ==_self, true, false, ltb, ℕ, zero, suc, ◌+◌, ◌-◌, ◌*◌, ◌≤◌, ◌<◌, ◌≡◌, ◌==◌, inl, inr,
  refl, ap₂, ◌∙◌, arith, Memory, if◌then◌else◌,
}
use ocl_gprm.Host.Check.{compare_from, compare}

-- The number of places from `i` on, `n` of them, at which two buffers agree.
unfoldable pub agreeing : Memory ℕ → Memory ℕ → ℕ → ℕ → ℕ
agreeing f g zero i = 0
agreeing f g (suc n) i = (if f i == g i then 1 else 0) + agreeing f g n (i + 1)

agreeing-le : (f g : Memory ℕ) (n i : ℕ) → agreeing f g n i ≤ n
unfolding agreeing
agreeing-le f g zero i = omega arith
agreeing-le f g (suc n) i = ground (arith, agreeing-le f g n (i + 1))

compare_from-agreeing :
    (limit left i correct nerrors : ℕ) (f g : Memory ℕ)
    → nerrors + left ≤ limit
    → compare_from limit left i correct nerrors f g
      ≡ (correct + agreeing f g left i, nerrors + (left - agreeing f g left i))
unfolding compare_from agreeing
compare_from-agreeing limit zero i correct nerrors f g h =
    ap₂ (λ a b. (a, b)) (omega arith) (omega arith)
compare_from-agreeing limit (suc left) i correct nerrors f g h = elim (Bool-cases (f i == g i)) [
  | inl e ↦ rw (e) (
      compare_from-agreeing limit left (i + 1) (correct + 1) nerrors f g (omega arith)
      ∙ ap₂ (λ a b. (a, b)) (omega arith) (omega arith))
  | inr e ↦
      let on : ltb limit (nerrors + 1) ≡ false = ground arith in
      rw (e, on)
        (compare_from-agreeing limit left (i + 1) correct (nerrors + 1) f g (omega arith)
          ∙ ap₂ (λ a b. (a, b)) (omega arith) (omega (arith, agreeing-le f g left (i + 1))))
]

-- The check counts as right the elements at which the result agrees with the reference, and all
-- others as wrong: it never stops early.
pub compare_lem :
    (width : ℕ) (f g : Memory ℕ)
    → compare width f g
      ≡ (agreeing f g (width * width) 0, width * width - agreeing f g (width * width) 0)
unfolding compare
compare_lem width f g =
    compare_from-agreeing (width * width) (width * width) 0 0 0 f g (omega arith)
    ∙ ap₂ (λ a b. (a, b)) (omega arith) (omega arith)

pub agreeing-all :
    (f g : Memory ℕ) (n i : ℕ) → ((k : ℕ) → i ≤ k → k < i + n → f k ≡ g k) → agreeing f g n i ≡ n
unfolding agreeing
agreeing-all f g zero i h = refl
agreeing-all f g (suc n) i h =
    let e : (f i == g i) ≡ true = rw (h i (omega arith) (omega arith)) (==_self (g i)) in
    rw (e, agreeing-all f g n (i + 1) (λ k p q. h k (omega arith) (omega arith))) (omega arith)
