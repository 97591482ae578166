-- ===== src/LinkedList/Detach.antt =====
-- `List_detach` of an item of a well-formed list takes out that item, and touches nothing else.
use disastr_os_message_queue.Base.{
  ℕ, ◌+◌, ◌≡◌, refl, sym, ap, ◌∙◌, ◌≢◌, inl, inr, Bool-cases, true, false, List, [], ◌∷◌, ◌++◌,
  arith, ◌==◌, if◌then◌else◌, pos, length, length-append, head_or, last_or, has, Distinct,
  has-last_or, has-append, last_or-append, ==-false, ==_iff, ==-ne, ne_of_has, ok, Distinct-remove,
  Distinct-append_left, Distinct-append_right, Distinct-append_apart,
}
use disastr_os_message_queue.LinkedList.{ListMemory, link_out, list_detach}
use disastr_os_message_queue.LinkedList.Chain.{
  item_at, Linked, IsList, IsLoose, Linked-append, Linked-append_left, Linked-append_right,
  Linked-set_next, Linked-set_prev, Linked-ne_zero, last_or-mem, head_or-mem,
}

module _ (m : ListMemory) (h p n it : ℕ) where
  link_out_self : IsLoose (link_out m h p n it) it
  unfolding link_out
  link_out_self = ground arith

  link_out-prev : p ≢ it → p ≢ 0 → p ≢ n → (link_out m h p n it).item p ≡ item_at (m.item p).prev n
  unfolding link_out
  link_out-prev other some_p apart = ground arith

  link_out-next : n ≢ it → n ≢ 0 → p ≢ n → (link_out m h p n it).item n ≡ item_at p (m.item n).next
  unfolding link_out
  link_out-next other some_n apart = ground arith

  link_out-other : (x : ℕ) → x ≢ it → x ≢ p → x ≢ n → (link_out m h p n it).item x ≡ m.item x
  unfolding link_out
  link_out-other x a b c = ground arith

  link_out-first :
      ((link_out m h p n it).head h).first
      ≡ (if it == (m.head h).first then n else (m.head h).first)
  unfolding link_out
  link_out-first = ground arith

  link_out-last :
      ((link_out m h p n it).head h).last ≡ (if it == (m.head h).last then p else (m.head h).last)
  unfolding link_out
  link_out-last = ground arith

  link_out-size :
      (k : ℕ) → (m.head h).size ≡ pos (k + 1) → ((link_out m h p n it).head h).size ≡ pos k
  unfolding link_out
  link_out-size k e = ground arith

  link_out-head : (g : ℕ) → g ≢ h → (link_out m h p n it).head g ≡ m.head g
  unfolding link_out
  link_out-head g ne = ground arith

-- The facts about one item between `xs` and `ys`.
module _ (m : ListMemory) (h it : ℕ) (xs ys : List ℕ) (l : IsList m h (xs ++ it ∷ ys)) where
  link : Linked m.item (last_or 0 xs) (it ∷ ys) 0
  link = Linked-append_right m.item xs (it ∷ ys) 0 0 l.linked

  some_it : it ≢ 0
  some_it = link.0

  item_it : m.item it ≡ item_at (last_or 0 xs) (head_or 0 ys)
  item_it = link.1

  distinct : Distinct (xs ++ ys)
  distinct = (Distinct-remove xs it ys l.distinct).0

  out_xs : has it xs ≡ false
  out_xs = ground (arith, has-append it xs ys, (Distinct-remove xs it ys l.distinct).1)

  out_ys : has it ys ≡ false
  out_ys = ground (arith, has-append it xs ys, (Distinct-remove xs it ys l.distinct).1)

  some_xs : has 0 xs ≡ false
  some_xs = Linked-ne_zero m.item xs 0 _ (Linked-append_left m.item xs (it ∷ ys) 0 0 l.linked)

  some_ys : has 0 ys ≡ false
  some_ys = Linked-ne_zero m.item ys it 0 link.2

  p-ne-it : last_or 0 xs ≢ it
  p-ne-it e = ground (arith, last_or-mem xs, out_xs, some_it)

  n-ne-it : head_or 0 ys ≢ it
  n-ne-it e = ground (arith, head_or-mem ys, out_ys, some_it)

  apart : last_or 0 xs ≢ 0 → last_or 0 xs ≢ head_or 0 ys
  apart ne e = ground (
    arith,
    last_or-mem xs ne,
    head_or-mem ys,
    Distinct-append_apart xs ys distinct (last_or 0 xs),
  )

  before :
      (a : ℕ)
      → has a xs ≡ true
      → (link_out m h (last_or 0 xs) (head_or 0 ys) it).item a
        ≡ (if a == last_or 0 xs then item_at (m.item a).prev (head_or 0 ys) else m.item a)
  before a i = elim (Bool-cases (a == last_or 0 xs)) [
    | inl hit ↦
        let e : a ≡ last_or 0 xs = (==_iff _ _).0 hit in
        let ne : last_or 0 xs ≢ 0 = λ z. ne_of_has a 0 xs i some_xs (e ∙ z) in
        rw (hit, e) (link_out-prev m h _ _ it p-ne-it ne (apart ne))
    | inr miss ↦ rw miss (
        link_out-other m h _ _ it a (ne_of_has a it xs i out_xs) (==-ne _ _ miss)
          (λ e. other_side a i e))
  ]
    where
      other_side : (b : ℕ) → has b xs ≡ true → b ≢ head_or 0 ys
      other_side b j e =
          ground (arith, some_xs, head_or-mem ys, Distinct-append_apart xs ys distinct b)

  after :
      (a : ℕ)
      → has a ys ≡ true
      → (link_out m h (last_or 0 xs) (head_or 0 ys) it).item a
        ≡ (if a == head_or 0 ys then item_at (last_or 0 xs) (m.item a).next else m.item a)
  after a i = elim (Bool-cases (a == head_or 0 ys)) [
    | inl hit ↦
        let e : a ≡ head_or 0 ys = (==_iff _ _).0 hit in
        let ne : head_or 0 ys ≢ 0 = λ z. ne_of_has a 0 ys i some_ys (e ∙ z) in
        rw (hit, e) (link_out-next m h _ _ it n-ne-it ne (λ q. not_last (sym q) ne))
    | inr miss ↦ rw miss (
        link_out-other m h _ _ it a (ne_of_has a it ys i out_ys) (λ e. other_side a i e)
          (==-ne _ _ miss))
  ]
    where
      not_last : head_or 0 ys ≡ last_or 0 xs → head_or 0 ys ≢ 0 → ⊥
      not_last e ne = apart (λ z. ne (e ∙ z)) (sym e)

      other_side : (b : ℕ) → has b ys ≡ true → b ≢ last_or 0 xs
      other_side b j e =
          ground (arith, some_ys, last_or-mem xs, Distinct-append_apart xs ys distinct b)

  link_out-Linked : Linked (link_out m h (last_or 0 xs) (head_or 0 ys) it).item 0 (xs ++ ys) 0
  link_out-Linked =
      Linked-append _ xs ys 0 0
        (Linked-set_next m.item _ xs 0 it (head_or 0 ys) (Distinct-append_left xs ys distinct)
          before (Linked-append_left m.item xs (it ∷ ys) 0 0 l.linked))
        (Linked-set_prev m.item _ ys it (last_or 0 xs) 0 (Distinct-append_right xs ys distinct)
          after link.2)

  link_out-IsList : IsList (link_out m h (last_or 0 xs) (head_or 0 ys) it) h (xs ++ ys)
  link_out-IsList = record {
    first = link_out-first m h _ _ it ∙ new_first xs l.first out_xs;
    last = link_out-last m h _ _ it ∙ new_last ys (l.last ∙ last_or-append 0 xs (it ∷ ys)) out_ys;
    size =
        link_out-size m h _ _ it (length (xs ++ ys))
          (l.size ∙ ap pos (omega (arith, length-append xs ys, length-append xs (it ∷ ys))));
    linked = link_out-Linked;
    distinct = distinct;
  }
    where
      new_first :
          (zs : List ℕ)
          → (m.head h).first ≡ head_or 0 (zs ++ it ∷ ys)
          → has it zs ≡ false
          → (if it == (m.head h).first then head_or 0 ys else (m.head h).first)
            ≡ head_or 0 (zs ++ ys)
      new_first [] e o = rw (e, (==_iff it it).1 refl)
      new_first (z ∷ zs) e o = rw (e, ==-false it z (ground arith))

      new_last :
          (zs : List ℕ)
          → (m.head h).last ≡ last_or it zs
          → has it zs ≡ false
          → (if it == (m.head h).last then last_or 0 xs else (m.head h).last) ≡ last_or 0 (xs ++ zs)
      new_last [] e o = rw (e, (==_iff it it).1 refl) (sym (last_or-append 0 xs []))
      new_last (z ∷ zs) e o =
          rw
            (
              e,
              ==-false it (last_or z zs)
                  (λ q. ne_of_has _ it (z ∷ zs) (has-last_or z zs) o (sym q)),
            )
            (sym (last_or-append 0 xs (z ∷ zs)))

  list_detach-link_out : list_detach m h it ≡ ok (it, link_out m h (last_or 0 xs) (head_or 0 ys) it)
  unfolding list_detach
  list_detach-link_out = rw (==-false it 0 some_it, item_it)

-- The outcome of a removal: the item is gone and loose, every other list and every other item keeps
-- what it had.
pub record Detached (m : ListMemory) (h it : ℕ) (xs ys : List ℕ) (m' : ListMemory) : Type 0 where
  pub detached : IsList m' h (xs ++ ys)
  pub loose : IsLoose m' it
  pub other_heads : (g : ℕ) → g ≢ h → m'.head g ≡ m.head g
  pub other_items : (a : ℕ) → has a (xs ++ it ∷ ys) ≡ false → a ≢ 0 → m'.item a ≡ m.item a

-- `List_detach` of any item of a list leaves the list without that item, the item loose, and every
-- other list's head and every item outside the list as they were.
pub list_detach-Detached :
    (m : ListMemory) (h it : ℕ) (xs ys : List ℕ)
    → IsList m h (xs ++ it ∷ ys)
    → (m' : ListMemory) × (list_detach m h it ≡ ok (it, m')) × Detached m h it xs ys m'
list_detach-Detached m h it xs ys l = (
  link_out m h (last_or 0 xs) (head_or 0 ys) it,
  list_detach-link_out m h it xs ys l,
  record {
    detached = link_out-IsList m h it xs ys l;
    loose = link_out_self m h _ _ it;
    other_heads = link_out-head m h _ _ it;
    other_items =
        λ a o s. link_out-other m h _ _ it a (not_it a o) (not_last a o s) (not_head a o s);
  },
)
  where
    not_it : (a : ℕ) → has a (xs ++ it ∷ ys) ≡ false → a ≢ it
    not_it a o e = ground (arith, has-append a xs (it ∷ ys))

    not_last : (a : ℕ) → has a (xs ++ it ∷ ys) ≡ false → a ≢ 0 → a ≢ last_or 0 xs
    not_last a o s e = ground (arith, last_or-mem xs, has-append a xs (it ∷ ys))

    not_head : (a : ℕ) → has a (xs ++ it ∷ ys) ≡ false → a ≢ 0 → a ≢ head_or 0 ys
    not_head a o s e = ground (arith, head_or-mem ys, has-append a xs (it ∷ ys))
