-- ===== src/Timers/Sorted.antt =====
-- A new timer goes to its place: the list of timers stays sorted by the awakening time.
use disastr_os_message_queue.Base.{
  ℕ, ◌≡◌, refl, true, false, List, [], ◌∷◌, ◌++◌, arith, if◌then◌else◌, ℤ, ltb_ℤ, ap, has,
  has-append, Bool-cases, inl, inr,
}

-- The items that awake no later than `time`, up to the first that awakes later, and the rest.
abbrev pub earlier : (ℕ → ℤ) → ℤ → List ℕ → List ℕ
earlier key time [] = []
earlier key time (x ∷ xs) = if ltb_ℤ time (key x) then [] else x ∷ earlier key time xs

abbrev pub later : (ℕ → ℤ) → ℤ → List ℕ → List ℕ
later key time [] = []
later key time (x ∷ xs) = if ltb_ℤ time (key x) then x ∷ xs else later key time xs

pub earlier-later :
    (key : ℕ → ℤ) (time : ℤ) (xs : List ℕ) → xs ≡ earlier key time xs ++ later key time xs
earlier-later key time [] = refl
earlier-later key time (x ∷ xs) = elim (Bool-cases (ltb_ℤ time (key x))) [
  | inl first ↦ rw first refl
  | inr rest ↦ rw rest (ap (λ z. x ∷ z) (earlier-later key time xs))
]

-- No item awakes before one that stands in front of it.
abbrev pub IsSorted : (ℕ → ℤ) → List ℕ → Type 0
IsSorted key [] = Unit {0}
IsSorted key (x ∷ xs) =
    ((a : ℕ) → has a xs ≡ true → ltb_ℤ (key a) (key x) ≡ false) × IsSorted key xs

pub IsSorted-insert :
    (key : ℕ → ℤ) (new : ℕ) (xs : List ℕ)
    → IsSorted key xs
    → IsSorted key (earlier key (key new) xs ++ new ∷ later key (key new) xs)
IsSorted-insert key new [] s = (λ a h. cc, tt)
IsSorted-insert key new (x ∷ xs) s = elim (Bool-cases (ltb_ℤ (key new) (key x))) [
  | inl first ↦ rw first (λ a h. ground (arith, s.0 a), s)
  | inr rest ↦ rw rest (λ a h. in_rest a h rest, IsSorted-insert key new xs s.1)
]
  where
    in_rest :
        (a : ℕ)
        → has a (earlier key (key new) xs ++ new ∷ later key (key new) xs) ≡ true
        → ltb_ℤ (key new) (key x) ≡ false
        → ltb_ℤ (key a) (key x) ≡ false
    in_rest a h rest =
        let parts : has a xs ≡ has a (earlier key (key new) xs ++ later key (key new) xs) =
          ap (has a) (earlier-later key (key new) xs) in
        ground (
          arith,
          s.0 a,
          has-append a (earlier key (key new) xs) (new ∷ later key (key new) xs),
          has-append a (earlier key (key new) xs) (later key (key new) xs),
        )
