-- ===== src/MessageQueues/Unlink/Levels.antt =====
-- The loop of `internal_mqUnlink` over the priority queues.
use disastr_os_message_queue.Base.{
  ℕ, suc, ◌/◌, ◌%◌, ◌≡◌, refl, sym, ap, ◌∙◌, ◌≢◌, true, false, List, [], ◌∷◌, arith, update, ok,
  has, length, ==-false, subst, update_other, update_twice, update_same, ==_self,
}
use disastr_os_message_queue.LinkedList.Memory.{Contents, IsFree}
use disastr_os_message_queue.PoolAllocator.{PoolAllocator, success}
use disastr_os_message_queue.Kernel.Object.{Object, Queue, queue}
use disastr_os_message_queue.Kernel.State.{Kernel, queues, messages, queues_pool}
use disastr_os_message_queue.Kernel.Invariant.{IsKernel, code_at}
use disastr_os_message_queue.Kernel.Preserve.{detach-IsKernel, held-taken, release_block-IsKernel}
use disastr_os_message_queue.MessageQueues.Blocks.{queue_free}
use disastr_os_message_queue.MessageQueues.Unlink.{free_queues}

-- The free blocks of a pool once the blocks `ps` went back to it, one after the other.
abbrev pub given_back : List ℕ → List ℕ → List ℕ
given_back [] free = free
given_back (p ∷ ps) free = given_back ps (p / 16 ∷ free)

-- Priority queues without messages.
abbrev pub AreEmpty : Kernel → Contents → List ℕ → Type 0
AreEmpty k c qs =
    (q : ℕ) → has q qs ≡ true → (r : Queue) × (k.object q ≡ queue r) × (c (messages q) ≡ [])

-- A queue in no list and without messages goes back to its pool.
queue_free-ok :
    {k : Kernel} {c : Contents} {free : ℕ → List ℕ} (w : IsKernel k c free) (q : ℕ) (r : Queue)
    → k.object q ≡ queue r
    → c (messages q) ≡ []
    → IsFree c q
    → has (q / 16) (free queues_pool) ≡ false
    → (a : PoolAllocator) × (queue_free q k
        ≡ ok (success, record k { pool = update k.pool queues_pool a }))
      × IsKernel
          (record k { pool = update k.pool queues_pool a })
          c
          (update free queues_pool (q / 16 ∷ free queues_pool))
unfolding queue_free
queue_free-ok w q r block empty loose taken =
    let list = w.lists.lists (messages q) in
    let (a, run, w') =
      release_block-IsKernel w queues_pool q (queue r) block refl (omega arith) (omega arith) loose
        taken in
    (a, rw (list.first, list.last, empty) run, w')

module _ {k : Kernel} {c : Contents} {free : ℕ → List ℕ} (w : IsKernel k c free) (mq q : ℕ)
    (qs : List ℕ) (first : c (queues mq) ≡ q ∷ qs) (r : Queue) (block : k.object q ≡ queue r)
    (empty : c (messages q) ≡ []) where
  -- One round takes the first queue out of the list and frees it.
  free_queues-round :
      (rounds : ℕ)
      → (k' : Kernel) × (free_queues (suc rounds) mq k ≡ free_queues rounds mq k')
        × IsKernel k'
            (update c (queues mq) qs)
            (update free queues_pool (q / 16 ∷ free queues_pool))
        × (k'.object ≡ k.object)
        × (k'.running ≡ k.running)
  unfolding free_queues
  free_queues-round rounds =
      let code : q % 16 ≡ 13 = code_at w q (queue r) block (omega arith) in
      let some_q : q ≢ 0 = λ e. omega (arith, code) in
      let (l1, run1, w1, loose1) = detach-IsKernel w (queues mq) q [] qs first in
      let empty1 : update c (queues mq) qs (messages q) ≡ [] =
        update_other c (queues mq) qs (messages q) (λ e. omega arith) ∙ empty in
      let list1 = w1.lists.lists (messages q) in
      let (a2, run2, w2) =
        queue_free-ok w1 q r block empty1 loose1
          (held-taken w queues_pool (queues mq) q (omega arith) code (rw first (ground arith))) in
      (
        record k { lists = l1; pool = update k.pool queues_pool a2 },
        rw ((w.lists.lists (queues mq)).first) (
            rw first (rw run1 (rw (==-false q 0 some_q) (rw (list1.size, empty1) (rw run2 refl))))),
        w2,
        refl,
        refl,
      )

pub free_queues-freed :
    (qs : List ℕ) (mq : ℕ) {k : Kernel} {c : Contents} {free : ℕ → List ℕ}
    → IsKernel k c free
    → c (queues mq) ≡ qs
    → AreEmpty k c qs
    → (k' : Kernel) × (free_queues (length qs) mq k ≡ ok (tt, k'))
      × IsKernel k'
          (update c (queues mq) [])
          (update free queues_pool (given_back qs (free queues_pool)))
      × (k'.object ≡ k.object)
      × (k'.running ≡ k.running)
unfolding free_queues
free_queues-freed [] mq {k} {c} {free} w all empty = (
  k,
  refl,
  subst (λ z. IsKernel k z (update free queues_pool (free queues_pool)))
      (sym (update_same c (queues mq) [] all))
      (subst (λ z. IsKernel k c z) (sym (update_same free queues_pool _ refl)) w),
  refl,
  refl,
)
free_queues-freed (q ∷ qs) mq {k} {c} {free} w all empty =
    let (r, block, none) = empty q (ground arith) in
    let (k1, run1, w1, object1, running1) =
      free_queues-round w mq q qs all r block none (length qs) in
    let (k2, run2, w2, object2, running2) =
      free_queues-freed qs mq w1 (rw (==_self (queues mq)) refl) (λ p h.
        let (s, block', none') = empty p (ground arith) in
        (
          s,
          ap (λ (f : ℕ → Object). f p) object1 ∙ block',
          update_other c (queues mq) qs (messages p) (λ e. omega arith) ∙ none',
        )) in
    (
      k2,
      run1 ∙ run2,
      subst (λ z. IsKernel k2 z (update free queues_pool (given_back (q ∷ qs) (free queues_pool))))
          (update_twice c (queues mq) qs [])
          (subst (λ z. IsKernel k2 (update (update c (queues mq) qs) (queues mq) []) z)
            (update_twice free queues_pool _ _) w2),
      object2 ∙ object1,
      running2 ∙ running1,
    )
