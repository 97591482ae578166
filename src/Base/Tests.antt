-- ===== src/Base/Tests.antt =====
-- Boolean tests on the native numbers, the conditional, and function update.
use Prim.Native.Nat.{ℕ, compare, Ordering}
use mathlib.Core.Path.{◌≡◌, refl, sym, ap, ◌∙◌, fun_ext}
use mathlib.Core.Logic.{◌↔◌, ◌⊎◌, inl, inr, ◌≢◌}
use mathlib.Core.Bool.{Bool, true, false}
use mathlib.Core.Option.{Option, none, some}
use native.Mathlib.Omega.{arith}

abbrev pub ltb : ℕ → ℕ → Bool
ltb a b = elim (compare a b) [ Ordering.lt ↦ true | _ ↦ false ]

abbrev pub leb : ℕ → ℕ → Bool
leb a b = elim (compare a b) [ Ordering.gt ↦ false | _ ↦ true ]

infix 50 ◌==◌
abbrev pub ◌==◌ : ℕ → ℕ → Bool
a == b = elim (compare a b) [ Ordering.eq ↦ true | _ ↦ false ]

infix 1 if◌then◌else◌
abbrev pub if◌then◌else◌ {ℓ} : {A : Type ℓ} → Bool → A → A → A
if true then x else y = x
if false then x else y = y

pub ==_iff : (a b : ℕ) → ((a == b) ≡ true) ↔ (a ≡ b)
==_iff a b = ground arith

pub ==-false : (a b : ℕ) → a ≢ b → (a == b) ≡ false
==-false a b h = ground arith

pub ==_self : (a : ℕ) → (a == a) ≡ true
==_self a = ground arith

pub ==-ne : (a b : ℕ) → (a == b) ≡ false → a ≢ b
==-ne a b h = ground arith

pub true-ne-false : true ≢ false
true-ne-false e = cc

-- To split on a computed value and keep the equation.
pub Bool-cases : (b : Bool) → (b ≡ true) ⊎ (b ≡ false)
Bool-cases true = inl refl
Bool-cases false = inr refl

pub Option-cases {ℓ} : {A : Type ℓ} (o : Option A) → (o ≡ none) ⊎ ((a : A) × (o ≡ some a))
Option-cases none = inl refl
Option-cases (some a) = inr (a, refl)

-- A memory, or any table over addresses, with one entry written.
abbrev pub update {ℓ} : {A : Type ℓ} → (ℕ → A) → ℕ → A → ℕ → A
update f a v x = if x == a then v else f x

pub update_other {ℓ} :
    {A : Type ℓ} (f : ℕ → A) (a : ℕ) (v : A) (x : ℕ) → x ≢ a → update f a v x ≡ f x
update_other f a v x ne = rw (==-false x a ne) refl

pub update_self {ℓ} : {A : Type ℓ} (f : ℕ → A) (a : ℕ) (v : A) → update f a v a ≡ v
update_self f a v = rw (==_self a) refl

pub update_twice {ℓ} :
    {A : Type ℓ} (f : ℕ → A) (a : ℕ) (v w : A) → update (update f a v) a w ≡ update f a w
update_twice f a v w =
    fun_ext λ x. elim (Bool-cases (x == a)) [ inl e ↦ rw e refl | inr e ↦ rw e refl ]

pub update_same {ℓ} : {A : Type ℓ} (f : ℕ → A) (a : ℕ) (v : A) → f a ≡ v → update f a v ≡ f
update_same f a v e = fun_ext λ x. elim (Bool-cases (x == a)) [
  | inl same ↦ rw same (sym e ∙ ap f (sym ((==_iff x a).0 same)))
  | inr other ↦ rw other refl
]
