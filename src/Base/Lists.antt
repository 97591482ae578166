-- ===== src/Base/Lists.antt =====
-- Lists of addresses: length, membership as a test, ends, and absence of repetitions.
use Prim.Native.Nat.{ℕ, suc, ◌+◌}
use mathlib.Core.Path.{◌≡◌, refl, sym, ap}
use mathlib.Core.Logic.{◌≢◌, inl, inr}
use mathlib.Core.Bool.{Bool, true, false, ◌||◌}
use mathlib.Core.List.{List, [], ◌∷◌, ◌++◌}
use native.Mathlib.Omega.{arith}
use disastr_os_message_queue.Base.Tests.{◌==◌, Bool-cases, ==_iff}

module _ {ℓ} {A : Type ℓ} where
  abbrev pub length : List A → ℕ
  length [] = 0
  length (x ∷ xs) = suc (length xs)

  pub length-append : (xs ys : List A) → length (xs ++ ys) ≡ length xs + length ys
  length-append [] ys = omega arith
  length-append (x ∷ xs) ys = omega (arith, length-append xs ys)

  -- The first and the last element, or a default.
  abbrev pub head_or : A → List A → A
  head_or d [] = d
  head_or d (x ∷ xs) = x

  abbrev pub last_or : A → List A → A
  last_or d [] = d
  last_or d (x ∷ xs) = last_or x xs

  pub head_or-append : (d : A) (xs ys : List A) → head_or d (xs ++ ys) ≡ head_or (head_or d ys) xs
  head_or-append d [] ys = refl
  head_or-append d (x ∷ xs) ys = refl

  pub last_or-append : (d : A) (xs ys : List A) → last_or d (xs ++ ys) ≡ last_or (last_or d xs) ys
  last_or-append d [] ys = refl
  last_or-append d (x ∷ xs) ys = last_or-append x xs ys

  -- Every element satisfies the predicate.
  abbrev pub All {κ} : (A → Type κ) → List A → Type κ
  All P [] = Unit
  All P (x ∷ xs) = P x × All P xs

abbrev pub has : ℕ → List ℕ → Bool
has a [] = false
has a (x ∷ xs) = (a == x) || has a xs

-- No address stands twice.
abbrev pub Distinct : List ℕ → Type 0
Distinct [] = Unit {0}
Distinct (x ∷ xs) = (has x xs ≡ false) × Distinct xs

abbrev pub Disjoint : List ℕ → List ℕ → Type 0
Disjoint xs ys = (a : ℕ) → has a xs ≡ true → has a ys ≡ false

pub has-append : (a : ℕ) (xs ys : List ℕ) → has a (xs ++ ys) ≡ (has a xs || has a ys)
has-append a [] ys = refl
has-append a (x ∷ xs) ys = ground (arith, has-append a xs ys)

pub has-last_or : (x : ℕ) (xs : List ℕ) → has (last_or x xs) (x ∷ xs) ≡ true
has-last_or x [] = ground arith
has-last_or x (y ∷ ys) = ground (arith, has-last_or y ys)

pub has-cons_self : (a : ℕ) (xs : List ℕ) → has a (a ∷ xs) ≡ true
has-cons_self a xs = ground arith

pub has-cons_other :
    (a x : ℕ) (xs : List ℕ) → has a (x ∷ xs) ≡ true → (a == x) ≡ false → has a xs ≡ true
has-cons_other a x xs h e = ground arith

pub ne_of_has : (a b : ℕ) (xs : List ℕ) → has a xs ≡ true → has b xs ≡ false → a ≢ b
ne_of_has a b xs p q = ground arith

pub Distinct-append_left : (xs ys : List ℕ) → Distinct (xs ++ ys) → Distinct xs
Distinct-append_left [] ys d = tt
Distinct-append_left (x ∷ xs) ys d =
    (ground (arith, has-append x xs ys), Distinct-append_left xs ys d.1)

pub Distinct-append_right : (xs ys : List ℕ) → Distinct (xs ++ ys) → Distinct ys
Distinct-append_right [] ys d = d
Distinct-append_right (x ∷ xs) ys d = Distinct-append_right xs ys d.1

pub Distinct-append_apart : (xs ys : List ℕ) → Distinct (xs ++ ys) → Disjoint xs ys
Distinct-append_apart [] ys d a h = ground arith
Distinct-append_apart (x ∷ xs) ys d a h =
    ground (arith, has-append x xs ys, Distinct-append_apart xs ys d.1 a)

-- A new element may be put anywhere, and any element taken out.
pub Distinct-insert :
    (xs : List ℕ) (a : ℕ) (ys : List ℕ)
    → Distinct (xs ++ ys)
    → has a (xs ++ ys) ≡ false
    → Distinct (xs ++ a ∷ ys)
Distinct-insert [] a ys d out = (out, d)
Distinct-insert (x ∷ xs) a ys d out = (
  ground (arith, has-append x xs (a ∷ ys), has-append x xs ys),
  Distinct-insert xs a ys d.1 (ground arith),
)

pub Distinct-remove :
    (xs : List ℕ) (a : ℕ) (ys : List ℕ)
    → Distinct (xs ++ a ∷ ys)
    → Distinct (xs ++ ys) × (has a (xs ++ ys) ≡ false)
Distinct-remove [] a ys d = (d.1, d.0)
Distinct-remove (x ∷ xs) a ys d =
    let rest = Distinct-remove xs a ys d.1 in
    (
      (ground (arith, has-append x xs (a ∷ ys), has-append x xs ys), rest.0),
      ground (arith, has-append x xs (a ∷ ys), rest.1),
    )

-- An item of a list has what stands before and behind it.
pub has-split :
    (a : ℕ) (xs : List ℕ) → has a xs ≡ true → (us : List ℕ) × (vs : List ℕ) × (xs ≡ us ++ a ∷ vs)
has-split a [] h = ground arith
has-split a (x ∷ xs) h = elim (Bool-cases (a == x)) [
  | inl e ↦ ([], xs, ap (λ z. z ∷ xs) (sym ((==_iff a x).0 e)))
  | inr e ↦
      let (us, vs, parts) = has-split a xs (has-cons_other a x xs h e) in
      (x ∷ us, vs, ap (λ zs. x ∷ zs) parts)
]

-- What is left of a list keeps the items that are not taken out.
pub has-remove :
    (a b : ℕ) (us vs : List ℕ) → has b (us ++ a ∷ vs) ≡ true → b ≢ a → has b (us ++ vs) ≡ true
has-remove a b us vs h ne = ground (arith, has-append b us (a ∷ vs), has-append b us vs)

pub has_middle : (a : ℕ) (us vs xs : List ℕ) → xs ≡ us ++ a ∷ vs → has a xs ≡ true
has_middle a us vs xs parts = rw (parts, has-append a us (a ∷ vs)) (ground arith)
