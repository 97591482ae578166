-- ===== src/Timers/Add.antt =====
-- `TimerList_add` on a sorted list.
use disastr_os_message_queue.Base.{
  ℕ, zero, suc, ◌/◌, ◌%◌, ◌<◌, ◌≡◌, refl, true, false, List, [], ◌∷◌, ◌++◌, arith, ==-false,
  ==_self, if◌then◌else◌, update, ℤ, pos, ltb_ℤ, ap, ◌∙◌, has, head_or, last_or, length, ok,
  Bool-cases, inl, inr, subst,
}
use disastr_os_message_queue.LinkedList.{clear_item}
use disastr_os_message_queue.LinkedList.Chain.{Linked}
use disastr_os_message_queue.LinkedList.Memory.{Contents, IsFree}
use disastr_os_message_queue.Kernel.Object.{Object, TimerItem, timer_item}
use disastr_os_message_queue.Kernel.State.{Kernel, block_at, timer_item_pool, list_fuel}
use disastr_os_message_queue.Kernel.Cmd.{as_timer_item}
use disastr_os_message_queue.Kernel.Invariant.{IsKernel, block_at_index, block_at_code}
use disastr_os_message_queue.Kernel.Take.{take-IsKernel, taken-not_free, insert-IsKernel}
use disastr_os_message_queue.Timers.{scan, timer_item_alloc, timer_list_add}
use disastr_os_message_queue.Timers.Sorted.{
  earlier, later, earlier-later, IsSorted, IsSorted-insert,
}

abbrev pub timer_of : Object → TimerItem
timer_of (timer_item r) = r
timer_of _ = record { awakening_time = pos 0; pcb = 0 }

-- The awakening time of the timer at an address.
abbrev pub time_at : (ℕ → Object) → ℕ → ℤ
time_at object a = (timer_of (object a)).awakening_time

-- A list of timers in order.
pub record IsTimers (k : Kernel) (c : Contents) (timers : ℕ) : Type 0 where
  pub short : length (c timers) < list_fuel
  pub typed :
      (a : ℕ) → has a (c timers) ≡ true → as_timer_item (k.object a) ≡ ok (timer_of (k.object a))
  pub sorted : IsSorted (time_at k.object) (c timers)

scan-earlier :
    (k : Kernel) (time : ℤ) (xs : List ℕ) (previous fuel : ℕ)
    → ((a : ℕ) → has a xs ≡ true → as_timer_item (k.object a) ≡ ok (timer_of (k.object a)))
    → Linked k.lists.item previous xs 0
    → length xs < fuel
    → scan fuel time (head_or 0 xs) previous k
      ≡ ok (last_or previous (earlier (time_at k.object) time xs))
unfolding scan
scan-earlier k time xs previous zero typed l enough = absurd (omega arith)
scan-earlier k time [] previous (suc fuel) typed l enough = refl
scan-earlier k time (x ∷ xs) previous (suc fuel) typed l enough =
    rw (==-false x 0 l.0, typed x (ground arith), l.1)
      (rw (scan-earlier k time xs x fuel (λ a i. typed a (ground arith)) l.2 (omega arith))
        (elim (Bool-cases (ltb_ℤ time (time_at k.object x))) [
          | inl first ↦ rw first refl
          | inr rest ↦ rw rest refl
        ]))

-- Items of a list do not change their times when the block of another is written.
IsSorted-congr :
    (key key' : ℕ → ℤ) (xs : List ℕ)
    → ((a : ℕ) → has a xs ≡ true → key' a ≡ key a)
    → IsSorted key xs
    → IsSorted key' xs
IsSorted-congr key key' [] same s = tt
IsSorted-congr key key' (x ∷ xs) same s = (
  λ a i. rw (same a (ground arith), same x (ground arith)) (s.0 a i),
  IsSorted-congr key key' xs (λ a i. same a (ground arith)) s.1,
)

earlier-congr :
    (key key' : ℕ → ℤ) (time : ℤ) (xs : List ℕ)
    → ((a : ℕ) → has a xs ≡ true → key' a ≡ key a)
    → (earlier key' time xs ≡ earlier key time xs) × (later key' time xs ≡ later key time xs)
earlier-congr key key' time [] same = (refl, refl)
earlier-congr key key' time (x ∷ xs) same =
    let (e, l) = earlier-congr key key' time xs (λ a i. same a (ground arith)) in
    rw (same x (ground arith)) (rw (e, l) (refl, refl))

module _ {k : Kernel} {c : Contents} {free : ℕ → List ℕ} (w : IsKernel k c free) (timers : ℕ)
    (t : IsTimers k c timers) (i : ℕ) (is : List ℕ) (first : free timer_item_pool ≡ i ∷ is) where
  -- The times after the insertion are sorted, whichever they are read from.
  placed :
      (key' : ℕ → ℤ) (new : ℕ) (time : ℤ)
      → key' new ≡ time
      → ((b : ℕ) → has b (c timers) ≡ true → key' b ≡ time_at k.object b)
      → IsSorted key' (
          earlier (time_at k.object) time (c timers)
          ++ new ∷ later (time_at k.object) time (c timers))
  placed key' new time e same =
      let (front, back) = earlier-congr (time_at k.object) key' time (c timers) same in
      subst (λ z. IsSorted key' (z ++ new ∷ later (time_at k.object) time (c timers))) front
        (subst (λ z. IsSorted key' (earlier key' time (c timers) ++ new ∷ z)) back
          (subst (λ z. IsSorted key' (earlier key' z (c timers) ++ new ∷ later key' z (c timers))) e
            (IsSorted-insert key' new (c timers)
              (IsSorted-congr (time_at k.object) key' (c timers) same t.sorted))))

  -- `TimerItem_alloc` takes the first free block, and makes it a timer that stands in no list.
  timer_item_alloc-ok :
      (awakening_time : ℤ) (pcb : ℕ)
      → (k' : Kernel) × (timer_item_alloc awakening_time pcb k
          ≡ ok (block_at timer_item_pool i, k'))
        × IsKernel k' c (update free timer_item_pool is)
        × IsFree c (block_at timer_item_pool i)
        × (k'.object
            ≡ update k.object
                (block_at timer_item_pool i)
                (timer_item (record { awakening_time = awakening_time; pcb = pcb })))
  unfolding timer_item_alloc
  timer_item_alloc-ok awakening_time pcb =
      let new : ℕ = block_at timer_item_pool i in
      let item : Object = timer_item (record { awakening_time = awakening_time; pcb = pcb }) in
      let (a, take, w', loose) =
        take-IsKernel w timer_item_pool i is (omega arith) (omega arith) first item refl in
      (
        record k {
          lists = clear_item k.lists new;
          object = update k.object new item;
          pool = update k.pool timer_item_pool a;
        },
        rw take (rw (==-false new 0 (λ e. omega arith)) refl),
        w',
        loose,
        refl,
      )

  -- In a kernel in order, with a list of timers that is sorted by the awakening time and a free
  -- block for a timer: `TimerList_add` ends, returns the new timer, puts it behind the timers that
  -- awake no later and in front of the others, leaves the list sorted, changes no other object,
  -- and leaves the kernel in order.
  pub timer_list_add-IsSorted :
      (awakening_time : ℤ) (pcb : ℕ)
      → (k' : Kernel) × (timer_list_add timers awakening_time pcb k
          ≡ ok (block_at timer_item_pool i, k'))
        × IsKernel k'
            (update c timers (
              earlier (time_at k.object) awakening_time (c timers)
              ++ block_at timer_item_pool i ∷ later (time_at k.object) awakening_time (c timers)))
            (update free timer_item_pool is)
        × (k'.object
            ≡ update k.object
                (block_at timer_item_pool i)
                (timer_item (record { awakening_time = awakening_time; pcb = pcb })))
        × IsSorted (time_at k'.object) (
            earlier (time_at k.object) awakening_time (c timers)
            ++ block_at timer_item_pool i ∷ later (time_at k.object) awakening_time (c timers))
  unfolding timer_list_add
  timer_list_add-IsSorted awakening_time pcb =
      let new : ℕ = block_at timer_item_pool i in
      let item : Object = timer_item (record { awakening_time = awakening_time; pcb = pcb }) in
      let key : ℕ → ℤ = time_at k.object in
      let xs : List ℕ = earlier key awakening_time (c timers) in
      let ys : List ℕ = later key awakening_time (c timers) in
      let (k1, alloc, w1, loose, objects) = timer_item_alloc-ok awakening_time pcb in
      let key' : ℕ → ℤ = time_at k1.object in
      let taken : has (new / 16) (update free timer_item_pool is (new % 16)) ≡ false =
        rw
          (
            block_at_index timer_item_pool i (omega arith),
            block_at_code timer_item_pool i (omega arith),
          )
          (taken-not_free w timer_item_pool i is (omega arith) (omega arith) first) in
      let (l, ins, w2) =
        insert-IsKernel w1 new (λ e. omega arith) loose taken timers xs ys
          (earlier-later key awakening_time (c timers)) in
      let time_of : Object → ℤ = λ o. (timer_of o).awakening_time in
      let new_time : key' new ≡ awakening_time =
        ap (λ (f : ℕ → Object). time_of (f new)) objects ∙ rw (==_self new) refl in
      let same : (b : ℕ) → has b (c timers) ≡ true → key' b ≡ key b = λ b h.
        ap (λ (f : ℕ → Object). time_of (f b)) objects
        ∙ ap (λ z. time_of (if z then item else k.object b))
            (==-false b new (λ e. ground (arith, loose timers))) in
      (
        record k1 { lists = l },
        rw ((w.lists.lists timers).first) (
            rw
              (scan-earlier k awakening_time (c timers) 0 list_fuel t.typed
                (w.lists.lists timers).linked t.short)
              (rw alloc (rw (==-false new 0 (λ e. omega arith)) (rw ins refl)))),
        w2,
        objects,
        placed key' new awakening_time new_time same,
      )
