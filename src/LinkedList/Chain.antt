-- ===== src/LinkedList/Chain.antt =====
-- What a well-formed list is: the items of `xs`, linked both ways, between two ends.
use disastr_os_message_queue.Base.{
  ℕ, ◌≡◌, refl, sym, ap, ◌∙◌, ◌≢◌, true, false, List, [], ◌∷◌, ◌++◌, arith, ◌==◌, if◌then◌else◌,
  pos, length, head_or, last_or, has, Distinct, has-last_or, head_or-append, ==-false, ne_of_has,
}
use disastr_os_message_queue.LinkedList.{ListItem, ListMemory}

abbrev pub item_at : ℕ → ℕ → ListItem
item_at p n = record { prev = p; next = n }

-- From the item before it, `p`, the list `xs` leads to the address `stop`.
abbrev pub Linked : (ℕ → ListItem) → ℕ → List ℕ → ℕ → Type 0
Linked item p [] stop = Unit {0}
Linked item p (x ∷ xs) stop =
    (x ≢ 0) × (item x ≡ item_at p (head_or stop xs)) × Linked item x xs stop

pub record IsList (m : ListMemory) (h : ℕ) (xs : List ℕ) : Type 0 where
  pub first : (m.head h).first ≡ head_or 0 xs
  pub last : (m.head h).last ≡ last_or 0 xs
  pub size : (m.head h).size ≡ pos (length xs)
  pub linked : Linked m.item 0 xs 0
  pub distinct : Distinct xs

-- An item that stands in no list.
abbrev pub IsLoose : ListMemory → ℕ → Type 0
IsLoose m it = m.item it ≡ item_at 0 0

module _ (item : ℕ → ListItem) where
  pub Linked-append :
      (xs ys : List ℕ) (p stop : ℕ)
      → Linked item p xs (head_or stop ys)
      → Linked item (last_or p xs) ys stop
      → Linked item p (xs ++ ys) stop
  Linked-append [] ys p stop l r = r
  Linked-append (x ∷ xs) ys p stop l r =
      (l.0, rw (head_or-append stop xs ys) l.1, Linked-append xs ys x stop l.2 r)

  pub Linked-append_left :
      (xs ys : List ℕ) (p stop : ℕ)
      → Linked item p (xs ++ ys) stop
      → Linked item p xs (head_or stop ys)
  Linked-append_left [] ys p stop l = tt
  Linked-append_left (x ∷ xs) ys p stop l =
      (l.0, rw (← head_or-append stop xs ys) l.1, Linked-append_left xs ys x stop l.2)

  pub Linked-append_right :
      (xs ys : List ℕ) (p stop : ℕ)
      → Linked item p (xs ++ ys) stop
      → Linked item (last_or p xs) ys stop
  Linked-append_right [] ys p stop l = l
  Linked-append_right (x ∷ xs) ys p stop l = Linked-append_right xs ys x stop l.2

  -- Addresses in a chain are not NULL.
  pub Linked-ne_zero : (xs : List ℕ) (p stop : ℕ) → Linked item p xs stop → has 0 xs ≡ false
  Linked-ne_zero [] p stop l = refl
  Linked-ne_zero (x ∷ xs) p stop l = ground (arith, l.0, Linked-ne_zero xs x stop l.2)

  -- The last item of a chain leads to its stop, and is not NULL.
  pub Linked-last_next :
      (x : ℕ) (xs : List ℕ) (p stop : ℕ)
      → Linked item p (x ∷ xs) stop
      → ((item (last_or x xs)).next ≡ stop) × (last_or x xs ≢ 0)
  Linked-last_next x [] p stop l = (ap (λ i. i.next) l.1, l.0)
  Linked-last_next x (y ∷ ys) p stop l = Linked-last_next y ys x stop l.2

-- The tests that `has` makes at the head and in the tail of a list.
has-head : (x : ℕ) (xs : List ℕ) → has x (x ∷ xs) ≡ true
has-head x xs = ground arith

has-tail : (a x : ℕ) (xs : List ℕ) → has a xs ≡ true → has a (x ∷ xs) ≡ true
has-tail a x xs h = ground arith

module _ (item item' : ℕ → ListItem) where
  -- A chain survives any change that spares its items.
  pub Linked-frame :
      (xs : List ℕ) (p stop : ℕ)
      → ((a : ℕ) → has a xs ≡ true → item' a ≡ item a)
      → Linked item p xs stop
      → Linked item' p xs stop
  Linked-frame [] p stop same l = tt
  Linked-frame (x ∷ xs) p stop same l = (
    l.0,
    same x (has-head x xs) ∙ l.1,
    Linked-frame xs x stop (λ a i. same a (has-tail a x xs i)) l.2,
  )

  -- Its last item may be led to another address.
  pub Linked-set_next :
      (xs : List ℕ) (p stop stop' : ℕ)
      → Distinct xs
      → ((a : ℕ)
          → has a xs ≡ true
          → item' a ≡ (if a == last_or 0 xs then item_at (item a).prev stop' else item a))
      → Linked item p xs stop
      → Linked item' p xs stop'
  Linked-set_next [] p stop stop' d same l = tt
  Linked-set_next (x ∷ []) p stop stop' d same l = (l.0, ground (arith, same x, l.1), tt)
  Linked-set_next (x ∷ y ∷ ys) p stop stop' d same l = (
    l.0,
    same x (has-head x (y ∷ ys))
        ∙ rw
            (==-false x (last_or y ys) (λ e. ne_of_has _ _ (y ∷ ys) (has-last_or y ys) d.0 (sym e)))
            l.1,
    Linked-set_next (y ∷ ys) x stop stop' d.1 (λ a i. same a (has-tail a x (y ∷ ys) i)) l.2,
  )

  -- And its first item may be led back to another address.
  pub Linked-set_prev :
      (xs : List ℕ) (p p' stop : ℕ)
      → Distinct xs
      → ((a : ℕ)
          → has a xs ≡ true
          → item' a ≡ (if a == head_or 0 xs then item_at p' (item a).next else item a))
      → Linked item p xs stop
      → Linked item' p' xs stop
  Linked-set_prev [] p p' stop d same l = tt
  Linked-set_prev (x ∷ xs) p p' stop d same l =
      (l.0, ground (arith, same x, l.1), Linked-frame xs x stop rest l.2)
    where
      rest : (a : ℕ) → has a xs ≡ true → item' a ≡ item a
      rest a i = same a (has-tail a x xs i) ∙ rw (==-false a x (ne_of_has a x xs i d.0))

-- The ends of a list stand in it.
pub last_or-mem : (xs : List ℕ) → last_or 0 xs ≢ 0 → has (last_or 0 xs) xs ≡ true
last_or-mem [] ne = absurd (ne refl)
last_or-mem (x ∷ xs) ne = has-last_or x xs

pub head_or-mem : (xs : List ℕ) → head_or 0 xs ≢ 0 → has (head_or 0 xs) xs ≡ true
head_or-mem [] ne = absurd (ne refl)
head_or-mem (x ∷ xs) ne = ground arith

-- A list survives what spares its head and its items.
pub IsList-frame :
    {m : ListMemory} (m' : ListMemory) {h : ℕ} {xs : List ℕ}
    → m'.head h ≡ m.head h
    → ((a : ℕ) → has a xs ≡ true → m'.item a ≡ m.item a)
    → IsList m h xs
    → IsList m' h xs
IsList-frame {m} m' {h} {xs} same_head same l = record {
  first = ground (arith, l.first);
  last = ground (arith, l.last);
  size = ground (arith, l.size);
  linked = Linked-frame m.item m'.item xs 0 0 same l.linked;
  distinct = l.distinct;
}
