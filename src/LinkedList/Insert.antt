-- ===== src/LinkedList/Insert.antt =====
-- `List_insert` on a well-formed list puts the item where `prev` says, and touches nothing else.
use disastr_os_message_queue.Base.{
  ℕ, ◌+◌, ◌≡◌, refl, sym, ap, ◌∙◌, ◌≢◌, inl, inr, Bool-cases, true, false, List, [], ◌∷◌, ◌++◌,
  arith, ◌==◌, if◌then◌else◌, pos, length, length-append, head_or, last_or, has, has-last_or,
  has-append, append-nil, last_or-append, ==-false, ==_iff, ==-ne, ne_of_has, ok, Distinct-insert,
  Distinct-append_left, Distinct-append_right, Distinct-append_apart,
}
use disastr_os_message_queue.LinkedList.{ListMemory, link_in, list_insert}
use disastr_os_message_queue.LinkedList.Chain.{
  item_at, Linked, IsList, IsLoose, Linked-append, Linked-append_left, Linked-append_right,
  Linked-set_next, Linked-set_prev, Linked-last_next, Linked-ne_zero, last_or-mem, head_or-mem,
}

-- What the writes leave at each address.
module _ (m : ListMemory) (h p n it : ℕ) (loose : IsLoose m it) (p_ne : p ≢ it)
    (n_ne : n ≢ it) where
  link_in_self : (link_in m h p n it).item it ≡ item_at p n
  unfolding link_in
  link_in_self = ground arith

  link_in-prev : p ≢ 0 → p ≢ n → (link_in m h p n it).item p ≡ item_at (m.item p).prev it
  unfolding link_in
  link_in-prev p_some apart = ground arith

  link_in-next : n ≢ 0 → p ≢ n → (link_in m h p n it).item n ≡ item_at it (m.item n).next
  unfolding link_in
  link_in-next n_some apart = ground arith

-- Elsewhere nothing is written.
pub link_in-other :
    (m : ListMemory) (h p n it x : ℕ)
    → x ≢ it
    → x ≢ p
    → x ≢ n
    → (link_in m h p n it).item x ≡ m.item x
unfolding link_in
link_in-other m h p n it x a b c = ground arith

module _ (m : ListMemory) (h p n it : ℕ) where
  link_in-first : ((link_in m h p n it).head h).first ≡ (if p == 0 then it else (m.head h).first)
  unfolding link_in
  link_in-first = ground arith

  link_in-last : ((link_in m h p n it).head h).last ≡ (if n == 0 then it else (m.head h).last)
  unfolding link_in
  link_in-last = ground arith

  link_in-size :
      (k : ℕ) → (m.head h).size ≡ pos k → ((link_in m h p n it).head h).size ≡ pos (k + 1)
  unfolding link_in
  link_in-size k e = ground arith

  pub link_in-head : (g : ℕ) → g ≢ h → (link_in m h p n it).head g ≡ m.head g
  unfolding link_in
  link_in-head g ne = ground arith

-- The facts about one insertion between `xs` and `ys`.
module _ (m : ListMemory) (h it : ℕ) (xs ys : List ℕ) (l : IsList m h (xs ++ ys)) (some_it : it ≢ 0)
    (out : has it (xs ++ ys) ≡ false) (loose : IsLoose m it) where
  out_xs : has it xs ≡ false
  out_xs = ground (arith, has-append it xs ys)

  out_ys : has it ys ≡ false
  out_ys = ground (arith, has-append it xs ys)

  some_xs : has 0 xs ≡ false
  some_xs = Linked-ne_zero m.item xs 0 _ (Linked-append_left m.item xs ys 0 0 l.linked)

  some_ys : has 0 ys ≡ false
  some_ys = Linked-ne_zero m.item ys _ 0 (Linked-append_right m.item xs ys 0 0 l.linked)

  p-ne-it : last_or 0 xs ≢ it
  p-ne-it e = ground (arith, last_or-mem xs, out_xs)

  n-ne-it : head_or 0 ys ≢ it
  n-ne-it e = ground (arith, head_or-mem ys, out_ys)

  apart : last_or 0 xs ≢ 0 → last_or 0 xs ≢ head_or 0 ys
  apart ne e = ground (
    arith,
    last_or-mem xs ne,
    head_or-mem ys,
    Distinct-append_apart xs ys l.distinct (last_or 0 xs),
  )

  before :
      (a : ℕ)
      → has a xs ≡ true
      → (link_in m h (last_or 0 xs) (head_or 0 ys) it).item a
        ≡ (if a == last_or 0 xs then item_at (m.item a).prev it else m.item a)
  before a i = elim (Bool-cases (a == last_or 0 xs)) [
    | inl hit ↦
        let e : a ≡ last_or 0 xs = (==_iff _ _).0 hit in
        let ne : last_or 0 xs ≢ 0 = λ z. ne_of_has a 0 xs i some_xs (e ∙ z) in
        rw (hit, e) (link_in-prev m h _ _ it loose p-ne-it n-ne-it ne (apart ne))
    | inr miss ↦ rw miss (
        link_in-other m h _ _ it a (ne_of_has a it xs i out_xs) (==-ne _ _ miss)
          (λ e. other_side a i e))
  ]
    where
      other_side : (b : ℕ) → has b xs ≡ true → b ≢ head_or 0 ys
      other_side b j e =
          ground (arith, some_xs, head_or-mem ys, Distinct-append_apart xs ys l.distinct b)

  after :
      (a : ℕ)
      → has a ys ≡ true
      → (link_in m h (last_or 0 xs) (head_or 0 ys) it).item a
        ≡ (if a == head_or 0 ys then item_at it (m.item a).next else m.item a)
  after a i = elim (Bool-cases (a == head_or 0 ys)) [
    | inl hit ↦
        let e : a ≡ head_or 0 ys = (==_iff _ _).0 hit in
        let ne : head_or 0 ys ≢ 0 = λ z. ne_of_has a 0 ys i some_ys (e ∙ z) in
        rw (hit, e) (link_in-next m h _ _ it loose p-ne-it n-ne-it ne (λ q. not_last (sym q) ne))
    | inr miss ↦ rw miss (
        link_in-other m h _ _ it a (ne_of_has a it ys i out_ys) (λ e. other_side a i e)
          (==-ne _ _ miss))
  ]
    where
      not_last : head_or 0 ys ≡ last_or 0 xs → head_or 0 ys ≢ 0 → ⊥
      not_last e ne = apart (λ z. ne (e ∙ z)) (sym e)

      other_side : (b : ℕ) → has b ys ≡ true → b ≢ last_or 0 xs
      other_side b j e =
          ground (arith, some_ys, last_or-mem xs, Distinct-append_apart xs ys l.distinct b)

  link_in-Linked : Linked (link_in m h (last_or 0 xs) (head_or 0 ys) it).item 0 (xs ++ it ∷ ys) 0
  link_in-Linked =
      Linked-append _ xs (it ∷ ys) 0 0
        (Linked-set_next m.item _ xs 0 (head_or 0 ys) it (Distinct-append_left xs ys l.distinct)
          before (Linked-append_left m.item xs ys 0 0 l.linked))
        (
          some_it,
          link_in_self m h _ _ it loose p-ne-it n-ne-it,
          Linked-set_prev m.item _ ys (last_or 0 xs) it 0 (Distinct-append_right xs ys l.distinct)
              after (Linked-append_right m.item xs ys 0 0 l.linked),
        )

  link_in-IsList : IsList (link_in m h (last_or 0 xs) (head_or 0 ys) it) h (xs ++ it ∷ ys)
  link_in-IsList = record {
    first = link_in-first m h _ _ it ∙ new_first xs l.first some_xs;
    last = link_in-last m h _ _ it ∙ new_last ys l.last some_ys;
    size =
        link_in-size m h _ _ it (length (xs ++ ys)) l.size
        ∙ ap pos (omega (arith, length-append xs ys, length-append xs (it ∷ ys)));
    linked = link_in-Linked;
    distinct = Distinct-insert xs it ys l.distinct out;
  }
    where
      new_first :
          (zs : List ℕ)
          → (m.head h).first ≡ head_or 0 (zs ++ ys)
          → has 0 zs ≡ false
          → (if last_or 0 zs == 0 then it else (m.head h).first) ≡ head_or 0 (zs ++ it ∷ ys)
      new_first [] e z = refl
      new_first (z ∷ zs) e s =
          rw (==-false (last_or z zs) 0 (ne_of_has _ 0 (z ∷ zs) (has-last_or z zs) s)) e

      new_last :
          (zs : List ℕ)
          → (m.head h).last ≡ last_or 0 (xs ++ zs)
          → has 0 zs ≡ false
          → (if head_or 0 zs == 0 then it else (m.head h).last) ≡ last_or 0 (xs ++ it ∷ zs)
      new_last [] e s = sym (last_or-append 0 xs (it ∷ []))
      new_last (z ∷ zs) e s =
          rw (==-false z 0 (ne_of_has z 0 (z ∷ zs) (ground arith) s))
            (e ∙ last_or-append 0 xs (z ∷ zs) ∙ sym (last_or-append 0 xs (it ∷ z ∷ zs)))

  -- What `List_insert` reads as the next item.
  next_item :
      (zs : List ℕ)
      → has 0 zs ≡ false
      → Linked m.item 0 zs (head_or 0 ys)
      → (m.head h).first ≡ head_or 0 (zs ++ ys)
      → (if last_or 0 zs == 0 then (m.head h).first else (m.item (last_or 0 zs)).next)
        ≡ head_or 0 ys
  next_item [] s k e = e
  next_item (z ∷ zs) s k e =
      rw (==-false (last_or z zs) 0 (Linked-last_next m.item z zs 0 _ k).1)
        (Linked-last_next m.item z zs 0 _ k).0

  pub list_insert-link_in :
      list_insert m h (last_or 0 xs) it ≡ ok (it, link_in m h (last_or 0 xs) (head_or 0 ys) it)
  unfolding list_insert
  list_insert-link_in = rw (
    ==-false it 0 some_it,
    loose,
    next_item xs some_xs (Linked-append_left m.item xs ys 0 0 l.linked) l.first,
  )

-- The outcome of an insertion: the item stands between `xs` and `ys`, every other list and every
-- other item keeps what it had.
pub record Inserted (m : ListMemory) (h it : ℕ) (xs ys : List ℕ) (m' : ListMemory) : Type 0 where
  pub inserted : IsList m' h (xs ++ it ∷ ys)
  pub other_heads : (g : ℕ) → g ≢ h → m'.head g ≡ m.head g
  pub other_items : (a : ℕ) → a ≢ it → has a (xs ++ ys) ≡ false → a ≢ 0 → m'.item a ≡ m.item a

-- On a list `xs ++ ys`, `List_insert` behind the last item of `xs` (in front, if `xs` is empty) puts
-- a loose item between the two parts and changes no other list's head and no other item.
pub list_insert-Inserted :
    (m : ListMemory) (h it : ℕ) (xs ys : List ℕ)
    → IsList m h (xs ++ ys)
    → it ≢ 0
    → has it (xs ++ ys) ≡ false
    → IsLoose m it
    → (m' : ListMemory) × (list_insert m h (last_or 0 xs) it ≡ ok (it, m'))
      × Inserted m h it xs ys m'
list_insert-Inserted m h it xs ys l some_it out loose = (
  link_in m h (last_or 0 xs) (head_or 0 ys) it,
  list_insert-link_in m h it xs ys l some_it out loose,
  record {
    inserted = link_in-IsList m h it xs ys l some_it out loose;
    other_heads = link_in-head m h _ _ it;
    other_items = λ a ne o s. link_in-other m h _ _ it a ne (not_last a o s) (not_head a o s);
  },
)
  where
    not_last : (a : ℕ) → has a (xs ++ ys) ≡ false → a ≢ 0 → a ≢ last_or 0 xs
    not_last a o s e = ground (arith, last_or-mem xs, has-append a xs ys)

    not_head : (a : ℕ) → has a (xs ++ ys) ≡ false → a ≢ 0 → a ≢ head_or 0 ys
    not_head a o s e = ground (arith, head_or-mem ys, has-append a xs ys)

-- `List_insert` at the end of a list, as the queues do it.
pub list_insert-append :
    (m : ListMemory) (h it : ℕ) (xs : List ℕ)
    → IsList m h xs
    → it ≢ 0
    → has it xs ≡ false
    → IsLoose m it
    → (m' : ListMemory) × (list_insert m h (m.head h).last it ≡ ok (it, m'))
      × Inserted m h it xs [] m'
list_insert-append m h it xs l some_it out loose = rw l.last (
    list_insert-Inserted m h it xs [] (rw (append-nil xs) l) some_it (rw (append-nil xs) out) loose)
