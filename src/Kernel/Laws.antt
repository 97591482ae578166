-- ===== src/Kernel/Laws.antt =====
-- What each command does on a kernel whose objects and lists are in order.
use disastr_os_message_queue.Base.{
  ℕ, ◌/◌, ◌%◌, ◌<◌, ◌≡◌, refl, ◌≢◌, Bool, true, false, List, [], ◌∷◌, ◌++◌, arith, ◌==◌, update, ℤ,
  pos, Run, ok, and_then, length, has, ==-false, to_int, Bool-cases, inl, inr, ==_iff, ==-ne,
}
use disastr_os_message_queue.LinkedList.{ListMemory, clear_item, list_init}
use disastr_os_message_queue.LinkedList.Chain.{IsList-frame}
use disastr_os_message_queue.LinkedList.Walk.{find_first, walk-find_first}
use disastr_os_message_queue.LinkedList.Memory.{
  Contents, IsFree, Represents, list_insert-append, list_detach-Represents,
}
use disastr_os_message_queue.PoolAllocator.{PoolAllocator, success}
use disastr_os_message_queue.PoolAllocator.FreeList.{
  IsPool, take_index-cons, take_index-nil, release_index-success,
}
use disastr_os_message_queue.Kernel.Object.{Object, Pcb, pcb}
use disastr_os_message_queue.Kernel.State.{Kernel, block_at, list_fuel}
use disastr_os_message_queue.Kernel.Cmd.{
  Cmd, ◌>>◌, load, insert_last, insert, detach, search_list, get_block, release_block, running_pcb,
  update_running, set_retvalue, int_arg, pointer_arg, read_char, write_char, write_int,
}

-- A typed read of an object of that type.
pub load-ok :
    {A : Type 0} (view : Object → Run A) (p : ℕ) (k : Kernel) (r : A)
    → p ≢ 0
    → view (k.object p) ≡ ok r
    → load view p k ≡ ok (r, k)
unfolding load
load-ok view p k r ne e = rw (==-false p 0 ne, e)

-- The running process, and what a write to its control block leaves.
pub record Runs (k : Kernel) (r : Pcb) : Type 0 where
  pub some_pcb : k.running ≢ 0
  pub control_block : k.object k.running ≡ pcb r

abbrev pub with_running : Kernel → Pcb → Kernel
with_running k r = record k { object = update k.object k.running (pcb r) }

module _ (k : Kernel) (r : Pcb) (run : Runs k r) where
  pub running_pcb-ok : running_pcb k ≡ ok (r, k)
  unfolding running_pcb load
  running_pcb-ok = rw (==-false k.running 0 run.some_pcb, run.control_block)

  pub update_running-ok : (f : Pcb → Pcb) → update_running f k ≡ ok (tt, with_running k (f r))
  unfolding update_running load
  update_running-ok f = rw (==-false k.running 0 run.some_pcb, run.control_block)

  pub set_retvalue-ok :
      (z : ℤ) → set_retvalue z k ≡ ok (tt, with_running k (record r { syscall_retvalue = z }))
  unfolding set_retvalue
  set_retvalue-ok z = update_running-ok _

  pub int_arg-ok : (i : ℕ) → int_arg i k ≡ ok (to_int (r.syscall_args i), k)
  unfolding int_arg
  int_arg-ok i = rw running_pcb-ok

  pub pointer_arg-ok : (i p : ℕ) → r.syscall_args i ≡ pos p → pointer_arg i k ≡ ok (p, k)
  unfolding pointer_arg
  pointer_arg-ok i p e = rw (running_pcb-ok, e)

-- The search by a key over a list whose items hold objects of the right type.
pub search_list-find_first :
    {A : Type 0} (view : Object → Run A) (test : A → Bool) (h : ℕ) (k : Kernel) (c : Contents)
    (key : ℕ → A)
    → Represents k.lists c
    → length (c h) < list_fuel
    → ((a : ℕ) → has a (c h) ≡ true → view (k.object a) ≡ ok (key a))
    → search_list view test h k ≡ ok (find_first (λ a. test (key a)) (c h), k)
unfolding search_list
search_list-find_first view test h k c key rep short typed = rw (
    walk-find_first k.lists (λ a. and_then (view (k.object a)) λ r. ok (test r)) (λ a. test (key a))
      h (c h) list_fuel (rep.lists h) (λ a i. rw (typed a i)) short)

pub insert_last-ok :
    (h it : ℕ) (k : Kernel) (c : Contents)
    → Represents k.lists c
    → it ≢ 0
    → IsFree c it
    → (m : ListMemory) × (insert_last h it k ≡ ok (it, record k { lists = m }))
      × Represents m (update c h (c h ++ it ∷ []))
unfolding insert_last insert
insert_last-ok h it k c rep ne free =
    let (m, run, rep') = list_insert-append h it rep ne free in (m, rw run, rep')

pub detach-ok :
    (h it : ℕ) (xs ys : List ℕ) (k : Kernel) (c : Contents)
    → Represents k.lists c
    → c h ≡ xs ++ it ∷ ys
    → (m : ListMemory) × (detach h it k ≡ ok (it, record k { lists = m }))
      × Represents m (update c h (xs ++ ys))
unfolding detach
detach-ok h it xs ys k c rep parts =
    let (m, run, rep') = list_detach-Represents h it xs ys rep parts in (m, rw run, rep')

pub get_block-ok :
    (code i : ℕ) (is : List ℕ) (k : Kernel)
    → IsPool (k.pool code) (i ∷ is)
    → (a : PoolAllocator) × (get_block code k
        ≡ ok (block_at code i, record k { pool = update k.pool code a }))
      × IsPool a is
      × (a.size_max ≡ (k.pool code).size_max)
unfolding get_block
get_block-ok code i is k p =
    let (a, run, p', same) = take_index-cons (k.pool code) i is p in (a, rw run, p', same)

-- A block that is handed out goes back to its pool.
pub release_block-ok :
    (code i : ℕ) (is : List ℕ) (k : Kernel)
    → code < 16
    → IsPool (k.pool code) is
    → i < (k.pool code).size_max
    → has i is ≡ false
    → (a : PoolAllocator) × (release_block code (block_at code i) k
        ≡ ok (success, record k { pool = update k.pool code a }))
      × IsPool a (i ∷ is)
      × (a.size_max ≡ (k.pool code).size_max)
unfolding release_block
release_block-ok code i is k low p lt out =
    let (a, run, p', same) = release_index-success (k.pool code) i is p lt out in
    let own : (block_at code i % 16 == code) ≡ true = ground arith in
    let index : block_at code i / 16 ≡ i = omega arith in
    (a, rw own (rw (index, run) refl), p', same)

-- An empty pool gives NULL, and nothing changes but for a rewritten pool.
pub get_block-null :
    (code : ℕ) (k : Kernel)
    → IsPool (k.pool code) []
    → get_block code k ≡ ok (0, record k { pool = update k.pool code (k.pool code) })
unfolding get_block
get_block-null code k p = rw (take_index-nil (k.pool code) p)

-- Clearing the links of an item that stands in no list changes no list.
pub clear_item-Represents :
    (m : ListMemory) (c : Contents) (p : ℕ)
    → Represents m c
    → IsFree c p
    → Represents (clear_item m p) c
clear_item-Represents m c p rep free = record {
  lists = λ h. IsList-frame (clear_item m p) refl (λ a i. ground (arith, free h)) (rep.lists h);
  one_list = rep.one_list;
  loose = λ a ne f. ground (arith, rep.loose a ne f);
}

-- So does the initialisation of a list that is empty already.
pub list_init-Represents :
    (m : ListMemory) (c : Contents) (h : ℕ)
    → Represents m c
    → c h ≡ []
    → Represents (list_init m h) c
unfolding list_init
list_init-Represents m c h rep e = record {
  lists = λ g. elim (Bool-cases (g == h)) [
    | inl same ↦
        rw ((==_iff g h).0 same, e)
          (record {
            first = ground arith;
            last = ground arith;
            size = ground arith;
            linked = tt;
            distinct = tt;
          })
    | inr other ↦
        IsList-frame (list_init m h) (ground (arith, ==-ne g h other)) (λ a i. refl) (rep.lists g)
  ];
  one_list = rep.one_list;
  loose = rep.loose;
}

-- The memory of the processes.
pub read_char-ok : (p : ℕ) (k : Kernel) → p ≢ 0 → read_char p k ≡ ok (k.chars p, k)
unfolding read_char
read_char-ok p k ne = rw (==-false p 0 ne)

pub write_char-ok :
    (p c : ℕ) (k : Kernel)
    → p ≢ 0
    → write_char p c k ≡ ok (tt, record k { chars = update k.chars p c })
unfolding write_char
write_char-ok p c k ne = rw (==-false p 0 ne)

pub write_int-ok :
    (p : ℕ) (z : ℤ) (k : Kernel)
    → p ≢ 0
    → write_int p z k ≡ ok (tt, record k { ints = update k.ints p z })
unfolding write_int
write_int-ok p z k ne = rw (==-false p 0 ne)

-- A command that returns is followed by the next one.
pub then-ok :
    {A B : Type 0} (m : Cmd A) (n : Cmd B) {k k1 : Kernel} {a : A} {r : Run (B × Kernel)}
    → m k ≡ ok (a, k1)
    → n k1 ≡ r
    → (m >> n) k ≡ r
then-ok m n {r} e e' = rw e e'
