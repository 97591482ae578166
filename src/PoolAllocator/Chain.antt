-- ===== src/PoolAllocator/Chain.antt =====
-- The chain of indices that the array behind the blocks of a pool holds, and the indices of a new pool.
use disastr_os_message_queue.Base.{
  ℕ, zero, suc, ◌+◌, ◌-◌, ◌≤◌, ◌<◌, ◌≡◌, refl, ◌≢◌, inl, inr, true, false, List, [], ◌∷◌, arith,
  if◌then◌else◌, update, ℤ, pos, length, has, Distinct, Bool-cases, ==-false, ltb, leb, ◌↔◌, subst,
  ap,
}
use disastr_os_message_queue.PoolAllocator.{null_idx, detached_idx, fill}

-- From the entry `e`, the array leads through the indices to the end mark.
abbrev pub Leads : (ℕ → ℤ) → ℤ → List ℕ → Type 0
Leads f e [] = e ≡ null_idx
Leads f e (i ∷ is) = (e ≡ pos i) × Leads f (f i) is

pub Leads-update :
    (f : ℕ → ℤ) (e : ℤ) (is : List ℕ) (j : ℕ) (v : ℤ)
    → has j is ≡ false
    → Leads f e is
    → Leads (update f j v) e is
Leads-update f e [] j v out l = l
Leads-update f e (i ∷ is) j v out l =
    (l.0, rw (==-false i j (λ q. ground arith)) (Leads-update f (f i) is j v (ground arith) l.1))

-- An entry of the free list is no mark of a block that is handed out.
pub Leads-ne_detached :
    (f : ℕ → ℤ) (e : ℤ) (is : List ℕ)
    → Leads f e is
    → (i : ℕ) → has i is ≡ true
    → f i ≢ detached_idx
Leads-ne_detached f e [] l i h q = cc
Leads-ne_detached f e (j ∷ []) l i h q = ground arith
Leads-ne_detached f e (j ∷ k ∷ is) l i h q =
    ground (arith, Leads-ne_detached f (f j) (k ∷ is) l.1 i)

-- The indices `i`, `i + 1`, … of `n` blocks.
pub range : ℕ → ℕ → List ℕ
range i zero = []
range i (suc n) = i ∷ range (i + 1) n

pub has-range : (j i n : ℕ) → (has j (range i n) ≡ true) ↔ ((i ≤ j) × (j < i + n))
unfolding range
has-range j i zero = (λ h. cc, λ h. absurd (omega arith))
has-range j i (suc n) =
    (λ h. ground (arith, has-range j (i + 1) n), λ h. ground (arith, has-range j (i + 1) n))

pub Distinct-range : (i n : ℕ) → Distinct (range i n)
unfolding range
Distinct-range i zero = tt
Distinct-range i (suc n) = (
  elim (Bool-cases (has i (range (i + 1) n))) [
    | inl h ↦ absurd (omega (arith, (has-range i (i + 1) n).0 h))
    | inr h ↦ h
  ],
  Distinct-range (i + 1) n,
)

pub length-range : (i n : ℕ) → length (range i n) ≡ n
unfolding range
length-range i zero = refl
length-range i (suc n) = ap suc (length-range (i + 1) n)

pub suc-sub-one : (n : ℕ) → suc n - 1 ≡ n
suc-sub-one n = omega arith

pub fill_lem :
    (rounds i : ℕ) (f : ℕ → ℤ) (j : ℕ)
    → fill rounds i f j
      ≡ (if leb i j then (if ltb j (i + rounds) then pos (j + 1) else f j) else f j)
unfolding fill
fill_lem zero i f j = ground arith
fill_lem (suc rounds) i f j = ground (arith, fill_lem rounds (i + 1) (update f i (pos (i + 1))) j)

pub Leads-range :
    (f : ℕ → ℤ) (i n : ℕ)
    → ((j : ℕ) → i ≤ j → j < i + n → f j ≡ pos (j + 1))
    → f (i + n) ≡ null_idx
    → Leads f (pos i) (range i (suc n))
unfolding range
Leads-range f i zero steps last = (refl, subst (λ k. f k ≡ null_idx) (omega arith) last)
Leads-range f i (suc n) steps last = (
  refl,
  rw (steps i (omega arith) (omega arith)) (
      Leads-range f (i + 1) n (λ j p q. steps j (omega arith) (omega arith))
        (subst (λ k. f k ≡ null_idx) (omega arith) last)),
)

pub range-suc : (i n : ℕ) → range i (suc n) ≡ i ∷ range (i + 1) n
unfolding range
range-suc i n = refl
