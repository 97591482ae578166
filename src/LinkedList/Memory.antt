-- ===== src/LinkedList/Memory.antt =====
-- The whole list memory seen as the sequence that each head holds. `List_insert` and `List_detach`
-- refine insertion into and removal from one of the sequences.
use disastr_os_message_queue.Base.{
  ℕ, ◌≡◌, sym, ◌∙◌, ◌≢◌, inl, inr, Bool-cases, true, false, ◌||◌, ◌&&◌, List, [], ◌∷◌, ◌++◌, arith,
  ◌==◌, update, has, has-append, append-nil, last_or, ==_iff, ==-ne, ok, subst, Distinct,
  Distinct-remove, has_middle,
}
use disastr_os_message_queue.LinkedList.{ListMemory, list_insert, list_detach}
use disastr_os_message_queue.LinkedList.Chain.{IsList, IsLoose, IsList-frame, Linked-ne_zero}
use disastr_os_message_queue.LinkedList.Insert.{Inserted, list_insert-Inserted}
use disastr_os_message_queue.LinkedList.Detach.{Detached, list_detach-Detached}

-- What each head holds.
abbrev pub Contents : Type 0
Contents = ℕ → List ℕ

-- An item that no head holds.
abbrev pub IsFree : Contents → ℕ → Type 0
IsFree c a = (h : ℕ) → has a (c h) ≡ false

pub record Represents (m : ListMemory) (c : Contents) : Type 0 where
  pub lists : (h : ℕ) → IsList m h (c h)
  pub one_list : (a h g : ℕ) → has a (c h) ≡ true → has a (c g) ≡ true → h ≡ g
  pub loose : (a : ℕ) → a ≢ 0 → IsFree c a → IsLoose m a

pub has-ne_zero : {m : ListMemory} {c : Contents} → Represents m c → (h : ℕ) → has 0 (c h) ≡ false
has-ne_zero {m} {c} r h = Linked-ne_zero m.item (c h) 0 0 (r.lists h).linked

-- A list apart from `h` holds none of what `h` holds.
pub apart :
    {m : ListMemory} {c : Contents}
    → Represents m c
    → (h g a : ℕ) → g ≢ h
    → has a (c g) ≡ true
    → has a (c h) ≡ false
apart {c} r h g a ne i = elim (Bool-cases (has a (c h))) [
  | inl j ↦ absurd (ne (r.one_list a g h i j))
  | inr j ↦ j
]

module _ {m : ListMemory} {c : Contents} (r : Represents m c) (h it : ℕ) (xs ys : List ℕ)
    (parts : c h ≡ xs ++ ys) (free : IsFree c it) where
  insert-has :
      (a g : ℕ) → has a (update c h (xs ++ it ∷ ys) g) ≡ ((a == it && g == h) || has a (c g))
  insert-has a g = elim (Bool-cases (g == h)) [
    | inl e ↦
        rw (e, (==_iff g h).0 e, parts, has-append a xs (it ∷ ys), has-append a xs ys)
          (ground arith)
    | inr e ↦ rw e (ground arith)
  ]

  Inserted-Represents :
      {m' : ListMemory}
      → Inserted m h it xs ys m'
      → it ≢ 0
      → Represents m' (update c h (xs ++ it ∷ ys))
  Inserted-Represents {m'} done some_it = record {
    lists = λ g. elim (Bool-cases (g == h)) [
      | inl e ↦ rw (e, (==_iff g h).0 e) done.inserted
      | inr e ↦ rw e (other_list g (==-ne g h e))
    ];
    one_list = λ a g g' i j.
        ground (arith, insert-has a g, insert-has a g', r.one_list a g g', free g, free g');
    loose = λ a ne f.
        done.other_items a (not_it a (f h)) (not_in a (f h)) ne
        ∙ r.loose a ne (λ g. was_free a g (f g));
  }
    where
      other_list : (g : ℕ) → g ≢ h → IsList m' g (c g)
      other_list g ne =
          IsList-frame m' (done.other_heads g ne)
            (λ a i.
              done.other_items a (λ e. ground (arith, free g))
                (subst (λ z. has a z ≡ false) parts (apart r h g a ne i))
                (λ e. ground (arith, has-ne_zero r g)))
            (r.lists g)

      not_it : (a : ℕ) → has a (update c h (xs ++ it ∷ ys) h) ≡ false → a ≢ it
      not_it a f e = ground (arith, insert-has a h)

      was_free : (a g : ℕ) → has a (update c h (xs ++ it ∷ ys) g) ≡ false → has a (c g) ≡ false
      was_free a g f = ground (arith, insert-has a g)

      not_in : (a : ℕ) → has a (update c h (xs ++ it ∷ ys) h) ≡ false → has a (xs ++ ys) ≡ false
      not_in a f = subst (λ z. has a z ≡ false) parts (was_free a h f)

-- When the list memory represents the sequences `c`, and the item is not NULL and in no list:
-- `List_insert` behind the last item of `xs`, or in front when `xs` is empty, returns the item,
-- makes the sequence `xs ++ ys` of the head `xs ++ it ∷ ys`, and leaves every other sequence as it
-- was.
pub list_insert-Represents :
    {m : ListMemory} {c : Contents} (h it : ℕ) (xs ys : List ℕ)
    → Represents m c
    → c h ≡ xs ++ ys
    → it ≢ 0
    → IsFree c it
    → (m' : ListMemory) × (list_insert m h (last_or 0 xs) it ≡ ok (it, m'))
      × Represents m' (update c h (xs ++ it ∷ ys))
list_insert-Represents {m} {c} h it xs ys r parts some_it free =
    let (m', run, done) =
      list_insert-Inserted m h it xs ys (subst (IsList m h) parts (r.lists h)) some_it
        (subst (λ z. has it z ≡ false) parts (free h)) (r.loose it some_it free) in
    (m', run, Inserted-Represents r h it xs ys parts free done some_it)

-- At the end of the list, where most callers insert.
pub list_insert-append :
    {m : ListMemory} {c : Contents} (h it : ℕ)
    → Represents m c
    → it ≢ 0
    → IsFree c it
    → (m' : ListMemory) × (list_insert m h (m.head h).last it ≡ ok (it, m'))
      × Represents m' (update c h (c h ++ it ∷ []))
list_insert-append {c} h it r some_it free =
    rw ((r.lists h).last)
      (list_insert-Represents h it (c h) [] r (sym (append-nil (c h))) some_it free)

module _ {m : ListMemory} {c : Contents} (r : Represents m c) (h it : ℕ) (xs ys : List ℕ)
    (parts : c h ≡ xs ++ it ∷ ys) where
  detach-has : (a g : ℕ) → has a (c g) ≡ ((a == it && g == h) || has a (update c h (xs ++ ys) g))
  detach-has a g = elim (Bool-cases (g == h)) [
    | inl e ↦
        rw (e, (==_iff g h).0 e, parts, has-append a xs (it ∷ ys), has-append a xs ys)
          (ground arith)
    | inr e ↦ rw e (ground arith)
  ]

  it-has : has it (c h) ≡ true
  it-has = has_middle it xs ys _ parts

  Detached-Represents :
      {m' : ListMemory} → Detached m h it xs ys m' → Represents m' (update c h (xs ++ ys))
  Detached-Represents {m'} done = record {
    lists = λ g. elim (Bool-cases (g == h)) [
      | inl e ↦ rw (e, (==_iff g h).0 e) done.detached
      | inr e ↦ rw e (other_list g (==-ne g h e))
    ];
    one_list = λ a g g' i j. ground (arith, detach-has a g, detach-has a g', r.one_list a g g');
    loose = λ a ne f. elim (Bool-cases (a == it)) [
      | inl e ↦ rw ((==_iff a it).0 e) done.loose
      | inr e ↦
          done.other_items a (subst (λ z. has a z ≡ false) parts (still_free a h e (f h))) ne
          ∙ r.loose a ne (λ g. still_free a g e (f g))
    ];
  }
    where
      other_list : (g : ℕ) → g ≢ h → IsList m' g (c g)
      other_list g ne =
          IsList-frame m' (done.other_heads g ne)
            (λ a i.
              done.other_items a (subst (λ z. has a z ≡ false) parts (apart r h g a ne i))
                (λ e. ground (arith, has-ne_zero r g)))
            (r.lists g)

      still_free :
          (a g : ℕ)
          → (a == it) ≡ false
          → has a (update c h (xs ++ ys) g) ≡ false
          → has a (c g) ≡ false
      still_free a g e f = ground (arith, detach-has a g)

-- The item that is taken out is then in no list.
pub detach-IsFree :
    {m : ListMemory} {c : Contents} (h it : ℕ) (xs ys : List ℕ)
    → Represents m c
    → c h ≡ xs ++ it ∷ ys
    → IsFree (update c h (xs ++ ys)) it
detach-IsFree {m} {c} h it xs ys r parts g = elim (Bool-cases (g == h)) [
  | inl same ↦ rw same (Distinct-remove xs it ys (subst Distinct parts (r.lists h).distinct)).1
  | inr other ↦ rw other (elim (Bool-cases (has it (c g))) [
    | inl i ↦ absurd (==-ne g h other (r.one_list it g h i (it-has r h it xs ys parts)))
    | inr i ↦ i
  ])
]

-- What was in no list stays in none.
pub detach_still-IsFree :
    {m : ListMemory} {c : Contents} (h it : ℕ) (xs ys : List ℕ)
    → Represents m c
    → c h ≡ xs ++ it ∷ ys
    → (a : ℕ) → IsFree c a
    → IsFree (update c h (xs ++ ys)) a
detach_still-IsFree h it xs ys r parts a free g =
    ground (arith, detach-has r h it xs ys parts a g, free g)

-- When the list memory represents the sequences `c`: `List_detach` of an item of a list returns
-- the item, makes the sequence `xs ++ it ∷ ys` of the head `xs ++ ys`, and leaves every other
-- sequence as it was.
pub list_detach-Represents :
    {m : ListMemory} {c : Contents} (h it : ℕ) (xs ys : List ℕ)
    → Represents m c
    → c h ≡ xs ++ it ∷ ys
    → (m' : ListMemory) × (list_detach m h it ≡ ok (it, m')) × Represents m' (update c h (xs ++ ys))
list_detach-Represents {m} {c} h it xs ys r parts =
    let (m', run, done) =
      list_detach-Detached m h it xs ys (subst (IsList m h) parts (r.lists h)) in
    (m', run, Detached-Represents r h it xs ys parts done)
