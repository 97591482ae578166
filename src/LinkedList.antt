-- ===== src/LinkedList.antt =====
-- linked_list.c and linked_list.h: doubly linked lists whose items stand inside other objects.
--
-- An address is a number and NULL is 0. `ListMemory` holds the `ListItem` at each address and the
-- `ListHead` at each address; the two kinds are apart in memory, since no list operation is given
-- one for the other. A function that dereferences NULL faults. The checks under `_LIST_DEBUG_` are
-- not compiled (the Makefile does not define it).
pub mod Chain
pub mod Walk
pub mod Insert
pub mod Detach
pub mod Memory
use disastr_os_message_queue.Base.{
  ℕ, zero, suc, Bool, ◌&&◌, ◌==◌, if◌then◌else◌, update, ℤ, pos, ◌+ℤ◌, ◌-ℤ◌, Run, ok, fault,
  out_of_fuel, and_then,
}

pub record ListItem : Type 0 where
  pub prev : ℕ
  pub next : ℕ

pub record ListHead : Type 0 where
  pub first : ℕ
  pub last : ℕ
  pub size : ℤ

pub record ListMemory : Type 0 where
  pub item : ℕ → ListItem
  pub head : ℕ → ListHead

-- `p->prev = v`, `p->next = v`, `h->first = v`, `h->last = v` and `h->size = n`.
abbrev pub set_prev : ListMemory → ℕ → ℕ → ListMemory
set_prev m p v = record m { item = update m.item p (record (m.item p) { prev = v }) }

abbrev pub set_next : ListMemory → ℕ → ℕ → ListMemory
set_next m p v = record m { item = update m.item p (record (m.item p) { next = v }) }

abbrev pub set_first : ListMemory → ℕ → ℕ → ListMemory
set_first m h v = record m { head = update m.head h (record (m.head h) { first = v }) }

abbrev pub set_last : ListMemory → ℕ → ℕ → ListMemory
set_last m h v = record m { head = update m.head h (record (m.head h) { last = v }) }

abbrev pub set_size : ListMemory → ℕ → ℤ → ListMemory
set_size m h n = record m { head = update m.head h (record (m.head h) { size = n }) }

-- `item->prev = item->next = 0`
abbrev pub clear_item : ListMemory → ℕ → ListMemory
clear_item m p = set_prev (set_next m p 0) p 0

unfoldable pub list_init : ListMemory → ℕ → ListMemory
list_init m h = set_size (set_last (set_first m h 0) h 0) h (pos 0)

-- `while (aux) { if (test) return aux; aux = aux->next; } return 0;`, the loop of `List_find` and
-- of every search by a key.
unfoldable pub walk : ℕ → ListMemory → (ℕ → Run Bool) → ℕ → Run ℕ
walk zero m test aux = out_of_fuel
walk (suc k) m test aux =
    let rest = walk k m test (m.item aux).next in
    if aux == 0 then ok 0 else and_then (test aux) λ hit. if hit then ok aux else rest

unfoldable pub list_find : ℕ → ListMemory → ℕ → ℕ → Run ℕ
unfolding walk
list_find fuel m h it = walk fuel m (λ aux. ok (aux == it)) (m.head h).first

-- The writes of `List_insert`, once `next` is known.
unfoldable pub link_in : ListMemory → (h prev next it : ℕ) → ListMemory
link_in m h prev next it =
    let m1 = if prev == 0 then m else set_next (set_prev m it prev) prev it in
    let m2 = if next == 0 then m1 else set_prev (set_next m1 it next) next it in
    let m3 = if prev == 0 then set_first m2 h it else m2 in
    let m4 = if next == 0 then set_last m3 h it else m3 in set_size m4 h ((m4.head h).size +ℤ pos 1)

-- The returned address is 0 if the item is linked already.
unfoldable pub list_insert : ListMemory → (h prev it : ℕ) → Run (ℕ × ListMemory)
unfolding link_in
list_insert m h prev it =
    if it == 0
    then fault
    else if (m.item it).next == 0 && (m.item it).prev == 0
    then ok (it, link_in m h prev (if prev == 0 then (m.head h).first else (m.item prev).next) it)
    else ok (0, m)

-- The writes of `List_detach`.
unfoldable pub link_out : ListMemory → (h prev next it : ℕ) → ListMemory
link_out m h prev next it =
    let m1 = if prev == 0 then m else set_next m prev next in
    let m2 = if next == 0 then m1 else set_prev m1 next prev in
    let m3 = if it == (m2.head h).first then set_first m2 h next else m2 in
    let m4 = if it == (m3.head h).last then set_last m3 h prev else m3 in
    clear_item (set_size m4 h ((m4.head h).size -ℤ pos 1)) it

unfoldable pub list_detach : ListMemory → (h it : ℕ) → Run (ℕ × ListMemory)
unfolding link_out
list_detach m h it =
    if it == 0 then fault else ok (it, link_out m h (m.item it).prev (m.item it).next it)
