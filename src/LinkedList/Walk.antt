-- ===== src/LinkedList/Walk.antt =====
-- The loops that walk along a list: on a well-formed list they end, and return the first item that
-- passes the test, or NULL.
use disastr_os_message_queue.Base.{
  ℕ, zero, suc, ◌<◌, ◌≡◌, refl, ◌≢◌, Bool, true, false, List, [], ◌∷◌, arith, ◌==◌, if◌then◌else◌,
  length, head_or, has, Run, ok, ==-false, ==_iff, Bool-cases, inl, inr,
}
use disastr_os_message_queue.LinkedList.{ListMemory, walk, list_find}
use disastr_os_message_queue.LinkedList.Chain.{Linked, IsList}

-- The specification: a search along a sequence.
unfoldable pub find_first : (ℕ → Bool) → List ℕ → ℕ
find_first p [] = 0
find_first p (x ∷ xs) = if p x then x else find_first p xs

walk-Linked :
    (m : ListMemory) (test : ℕ → Run Bool) (p : ℕ → Bool) (xs : List ℕ) (before fuel : ℕ)
    → ((a : ℕ) → has a xs ≡ true → test a ≡ ok (p a))
    → Linked m.item before xs 0
    → length xs < fuel
    → walk fuel m test (head_or 0 xs) ≡ ok (find_first p xs)
unfolding walk find_first
walk-Linked m test p [] before zero passes l fuel = absurd (omega arith)
walk-Linked m test p [] before (suc k) passes l fuel = refl
walk-Linked m test p (x ∷ xs) before zero passes l fuel = absurd (omega arith)
walk-Linked m test p (x ∷ xs) before (suc k) passes l fuel =
    rw (==-false x 0 l.0, passes x (ground arith), l.1)
      (rw (walk-Linked m test p xs x k (λ a i. passes a (ground arith)) l.2 (omega arith))
        (push_if (p x)))
  where
    push_if :
        (b : Bool)
        → (if b then ok x else ok (find_first p xs)) ≡ ok (if b then x else find_first p xs)
    push_if true = refl
    push_if false = refl

-- On a well-formed list, with a test that ends at each item, and more rounds than the list has
-- items: the loop that searches a list ends, and returns the first item that passes the test, or
-- NULL.
pub walk-find_first :
    (m : ListMemory) (test : ℕ → Run Bool) (p : ℕ → Bool) (h : ℕ) (xs : List ℕ) (fuel : ℕ)
    → IsList m h xs
    → ((a : ℕ) → has a xs ≡ true → test a ≡ ok (p a))
    → length xs < fuel
    → walk fuel m test (m.head h).first ≡ ok (find_first p xs)
walk-find_first m test p h xs fuel l passes enough =
    rw l.first (walk-Linked m test p xs 0 fuel passes l.linked enough)

pub find_first-has :
    (p : ℕ → Bool) (xs : List ℕ)
    → find_first p xs ≢ 0
    → (has (find_first p xs) xs ≡ true) × (p (find_first p xs) ≡ true)
unfolding find_first
find_first-has p [] ne = absurd (ne refl)
find_first-has p (x ∷ xs) ne = ground (arith, find_first-has p xs)

pub find_first_none :
    (p : ℕ → Bool) (xs : List ℕ)
    → has 0 xs ≡ false
    → find_first p xs ≡ 0
    → (a : ℕ) → has a xs ≡ true
    → p a ≡ false
unfolding find_first
find_first_none p [] s e a i = absurd (ground arith)
find_first_none p (x ∷ xs) s e a i = elim (Bool-cases (a == x)) [
  | inl same ↦ rw ((==_iff a x).0 same) (ground arith)
  | inr other ↦ find_first_none p xs (ground arith) (ground arith) a (ground arith)
]

find_first_self :
    (it : ℕ) (xs : List ℕ) → find_first (λ a. a == it) xs ≡ (if has it xs then it else 0)
unfolding find_first
find_first_self it [] = refl
find_first_self it (x ∷ xs) = ground (arith, find_first_self it xs)

-- On a well-formed list, with more rounds than the list has items: `List_find` ends, and returns
-- the item if it is in the list, and NULL otherwise.
pub list_find-has :
    (m : ListMemory) (h it : ℕ) (xs : List ℕ) (fuel : ℕ)
    → IsList m h xs
    → length xs < fuel
    → list_find fuel m h it ≡ ok (if has it xs then it else 0)
unfolding list_find
list_find-has m h it xs fuel l enough =
    rw (← find_first_self it xs)
      (walk-find_first m (λ a. ok (a == it)) (λ a. a == it) h xs fuel l (λ a i. refl) enough)

-- A search reads its test at the items only.
pub find_first-congr :
    (p p' : ℕ → Bool) (xs : List ℕ)
    → ((a : ℕ) → has a xs ≡ true → p' a ≡ p a)
    → find_first p' xs ≡ find_first p xs
unfolding find_first
find_first-congr p p' [] same = refl
find_first-congr p p' (x ∷ xs) same =
    rw (same x (ground arith), find_first-congr p p' xs (λ a i. same a (ground arith))) refl
