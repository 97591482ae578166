-- ===== src/MessageQueues/Blocks/Alloc.antt =====
-- What the allocation of a message does.
use disastr_os_message_queue.Base.{
  ℕ, ◌<◌, ◌≡◌, refl, ◌≢◌, true, false, List, [], ◌∷◌, arith, ◌==◌, update, ℤ, ok, has, has-append,
  ◌++◌, subst, ==-false, Bool-cases, inl, inr,
}
use disastr_os_message_queue.LinkedList.{ListMemory, clear_item}
use disastr_os_message_queue.LinkedList.Memory.{Contents, IsFree, Represents}
use disastr_os_message_queue.PoolAllocator.{PoolAllocator}
use disastr_os_message_queue.PoolAllocator.FreeList.{IsPool}
use disastr_os_message_queue.Kernel.Object.{message}
use disastr_os_message_queue.Kernel.State.{Kernel, block_at, messages_pool}
use disastr_os_message_queue.Kernel.Laws.{get_block-ok, clear_item-Represents}
use disastr_os_message_queue.Kernel.Invariant.{IsKernel}
use disastr_os_message_queue.Kernel.Take.{fresh-update}
use disastr_os_message_queue.MessageQueues.Blocks.{message_alloc}

-- The block that is taken may be put into a list: the blocks that are still free stand in none.
module _ {k : Kernel} {c : Contents} {free : ℕ → List ℕ} (w : IsKernel k c free) (taken i : ℕ)
    (is : List ℕ) (known : 0 < taken) (small : taken < 15) (first : free taken ≡ i ∷ is) where
  taken-not_free : has i is ≡ false
  taken-not_free = (subst (IsPool (k.pool taken)) first (w.pools taken known small)).distinct.0

  still_free-ne :
      (code j : ℕ)
      → code < 16
      → has j (update free taken is code) ≡ true
      → block_at code j ≢ block_at taken i
  still_free-ne code j low h e =
      let same_code : code ≡ taken = omega arith in
      let same_index : j ≡ i = omega arith in ground (arith, taken-not_free)

  pub fresh-append :
      (h code j : ℕ)
      → code < 16
      → has j (update free taken is code) ≡ true
      → IsFree (update c h (c h ++ block_at taken i ∷ [])) (block_at code j)
  fresh-append h code j low f g = elim (Bool-cases (g == h)) [
    | inl same ↦
        rw
          (
            same,
            has-append (block_at code j) (c h) (block_at taken i ∷ []),
            w.fresh code j low (fresh-update free taken i is first code j f) h,
            ==-false (block_at code j) (block_at taken i) (still_free-ne code j low f),
          )
          refl
    | inr other ↦ rw other (w.fresh code j low (fresh-update free taken i is first code j f) g)
  ]

module _ {k : Kernel} {c : Contents} {free : ℕ → List ℕ} (w : IsKernel k c free) (i : ℕ)
    (is : List ℕ) (first : free messages_pool ≡ i ∷ is) where
  -- `Message_alloc` takes the first free block, and makes it a message that stands in no list.
  pub message_alloc-ok :
      (text : ℕ) (text_length : ℤ)
      → (m : ListMemory) × (a : PoolAllocator) × (message_alloc text text_length k
          ≡ ok (
            block_at messages_pool i,
            record k {
              lists = m;
              object =
                  update k.object
                    (block_at messages_pool i)
                    (message (record { text_length = text_length; text = text }));
              pool = update k.pool messages_pool a;
            },
          ))
        × Represents m c
        × IsPool a is
        × (a.size_max ≡ (k.pool messages_pool).size_max)
  unfolding message_alloc
  message_alloc-ok text text_length =
      let pool : IsPool (k.pool messages_pool) (i ∷ is) =
        rw (← first) (w.pools messages_pool (omega arith) (omega arith)) in
      let (a, run, rest, same) = get_block-ok messages_pool i is k pool in
      let ne : (block_at messages_pool i == 0) ≡ false = ground arith in
      (
        clear_item k.lists (block_at messages_pool i),
        a,
        rw run (rw ne refl),
        clear_item-Represents k.lists c (block_at messages_pool i) w.lists
            (w.fresh messages_pool i (omega arith) (rw first (ground arith))),
        rest,
        same,
      )
