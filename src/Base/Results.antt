-- ===== src/Base/Results.antt =====
-- What holds of the result of a computation that may not return.
use mathlib.Core.Path.{◌≡◌, refl, subst}
use mathlib.Core.Bool.{Bool, true, false}
use ocl_gprm.Base.Tests.{if◌then◌else◌}
use mathlib.Core.Option.{Option, none, some}

-- Whatever is returned has a property.
abbrev pub Ensures {ℓ κ} : {A : Type ℓ} → (A → Type κ) → Option A → Type κ
Ensures P none = Unit
Ensures P (some a) = P a

-- One computation after another.
pub Ensures-then {ℓ κ} :
    {A B : Type ℓ} (P : A → Type κ) (Q : B → Type κ) (o : Option A) (f : A → Option B)
    → Ensures P o
    → ((a : A) → P a → Ensures Q (f a))
    → Ensures Q (elim o [ none ↦ none | some a ↦ f a ])
Ensures-then P Q none f h k = tt
Ensures-then P Q (some a) f h k = k a h

-- A result that a test lets through.
pub Ensures-if {ℓ κ} :
    {A : Type ℓ} (P : A → Type κ) (b : Bool) {a : A} → P a → Ensures P (if b then none else some a)
Ensures-if P true h = tt
Ensures-if P false h = h

-- A round of a loop, which ends where the first computation fails.
pub Ensures-round {ℓ κ} :
    {A B : Type ℓ} (P : A → Type κ) (Q : B → Type κ) (o : Option A) (b : B) (f : A → Option B)
    → Ensures P o
    → Q b
    → ((a : A) → P a → Ensures Q (f a))
    → Ensures Q (elim o [ none ↦ some b | some a ↦ f a ])
Ensures-round P Q none b f h end k = end
Ensures-round P Q (some a) b f h end k = k a h

pub Ensures-some {ℓ κ} :
    {A : Type ℓ} (P : A → Type κ) {o : Option A} {a : A} → Ensures P o → o ≡ some a → P a
Ensures-some P h e = subst (Ensures P) e h

pub Ensures-any {ℓ} : {A : Type ℓ} (o : Option A) → Ensures (λ (a : A). Unit {0}) o
Ensures-any none = tt
Ensures-any (some a) = tt

pub Ensures-weaken {ℓ κ} :
    {A : Type ℓ} (P Q : A → Type κ) (o : Option A)
    → ((a : A) → P a → Q a)
    → Ensures P o
    → Ensures Q o
Ensures-weaken P Q none f h = tt
Ensures-weaken P Q (some a) f h = f a h

-- Two computations that both do not return, or both return, and then related results.
abbrev pub Agree {ℓ} : {A B : Type ℓ} → (A → B → Type 0) → Option A → Option B → Type 0
Agree R none none = Unit
Agree R none (some b) = ⊥
Agree R (some a) none = ⊥
Agree R (some a) (some b) = R a b

pub Agree-then {ℓ} :
    {A B C D : Type ℓ} (R : A → B → Type 0) (S : C → D → Type 0) (o : Option A) (o' : Option B)
    (f : A → Option C) (f' : B → Option D)
    → Agree R o o'
    → ((a : A) (b : B) → R a b → Agree S (f a) (f' b))
    → Agree S (elim o [ none ↦ none | some a ↦ f a ]) (elim o' [ none ↦ none | some b ↦ f' b ])
Agree-then R S none none f f' h k = tt
Agree-then R S none (some b) f f' h k = absurd h
Agree-then R S (some a) none f f' h k = absurd h
Agree-then R S (some a) (some b) f f' h k = k a b h

-- An invariant of the first computation's result comes with the agreement.
pub Agree-Ensures {ℓ} :
    {A B : Type ℓ} (P : A → Type 0) (R : A → B → Type 0) (o : Option A) (o' : Option B)
    → Ensures P o
    → Agree R o o'
    → Agree (λ a b. P a × R a b) o o'
Agree-Ensures P R none none h r = tt
Agree-Ensures P R none (some b) h r = absurd r
Agree-Ensures P R (some a) none h r = absurd r
Agree-Ensures P R (some a) (some b) h r = (h, r)

pub Agree-if {ℓ} :
    {A B : Type ℓ} (R : A → B → Type 0) (b : Bool) (o : Option A) (o' : Option B)
    → Agree R o o'
    → Agree R (if b then none else o) (if b then none else o')
Agree-if R true o o' h = tt
Agree-if R false o o' h = h

pub Agree-some {ℓ} :
    {A B : Type ℓ} (R : A → B → Type 0) {o : Option A} (o' : Option B) {a : A}
    → Agree R o o'
    → o ≡ some a
    → (b : B) × (o' ≡ some b) × R a b
Agree-some R none h e = absurd (subst (λ o. Agree R o none) e h)
Agree-some R (some b) h e = (b, refl, subst (λ o. Agree R o (some b)) e h)

pub Agree-weaken {ℓ} :
    {A B : Type ℓ} (R S : A → B → Type 0) (o : Option A) (o' : Option B)
    → ((a : A) (b : B) → R a b → S a b)
    → Agree R o o'
    → Agree S o o'
Agree-weaken R S none none f h = tt
Agree-weaken R S none (some b) f h = absurd h
Agree-weaken R S (some a) none f h = absurd h
Agree-weaken R S (some a) (some b) f h = f a b h

-- One computation after another: the first of two in a row may itself be two in a row.
abbrev pub chain {ℓ} : {A B : Type ℓ} → Option A → (A → Option B) → Option B
chain o f = elim o [ none ↦ none | some a ↦ f a ]

pub chain_assoc {ℓ} :
    {A B C : Type ℓ} (o : Option A) (f : A → Option B) (g : B → Option C) (h : A → Option C)
    → ((a : A) → h a ≡ chain (f a) g)
    → chain o h ≡ chain (chain o f) g
chain_assoc none f g h e = refl
chain_assoc (some a) f g h e = e a

pub Agree-map {ℓ} :
    {A B C : Type ℓ} (R : C → B → Type 0) (o : Option A) (o' : Option B) (f : A → C)
    → Agree (λ a b. R (f a) b) o o'
    → Agree R (elim o [ none ↦ none | some a ↦ some (f a) ]) o'
Agree-map R none none f h = tt
Agree-map R none (some b) f h = absurd h
Agree-map R (some a) none f h = absurd h
Agree-map R (some a) (some b) f h = h

pub Agree-flip {ℓ} :
    {A B : Type ℓ} (R : A → B → Type 0) (o : Option A) (o' : Option B)
    → Agree R o o'
    → Agree (λ b a. R a b) o' o
Agree-flip R none none h = tt
Agree-flip R none (some b) h = absurd h
Agree-flip R (some a) none h = absurd h
Agree-flip R (some a) (some b) h = h
