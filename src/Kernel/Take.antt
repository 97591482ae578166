-- ===== src/Kernel/Take.antt =====
-- A block is taken from its pool and put into a list: the kernel stays in order.
use disastr_os_message_queue.Base.{
  ℕ, ◌/◌, ◌%◌, ◌<◌, ◌≡◌, sym, ◌≢◌, ◌∙◌, true, false, List, [], ◌∷◌, ◌++◌, arith, ◌==◌, update, ok,
  has, has-append, ==_iff, ==-false, ==_self, Bool-cases, inl, inr, subst, last_or, append-nil,
}
use disastr_os_message_queue.LinkedList.{ListMemory, clear_item}
use disastr_os_message_queue.LinkedList.Memory.{Contents, IsFree, list_insert-Represents}
use disastr_os_message_queue.PoolAllocator.{PoolAllocator}
use disastr_os_message_queue.PoolAllocator.FreeList.{IsPool}
use disastr_os_message_queue.Kernel.Object.{Object}
use disastr_os_message_queue.Kernel.State.{Kernel, block_at}
use disastr_os_message_queue.Kernel.Cmd.{get_block, insert, insert_last}
use disastr_os_message_queue.Kernel.Laws.{get_block-ok, insert_last-ok, clear_item-Represents}
use disastr_os_message_queue.Kernel.Invariant.{
  IsKernel, code_of, store-typed, store-inside, pools-update, inside-update, pool-update_max,
  block_at_index, block_at_code,
}

-- Of a pool whose first free block is taken, the others are still free.
pub fresh-update :
    (free : ℕ → List ℕ) (code i : ℕ) (is : List ℕ)
    → free code ≡ i ∷ is
    → (d j : ℕ) → has j (update free code is d) ≡ true
    → has j (free d) ≡ true
fresh-update free code i is e d j h = elim (Bool-cases (d == code)) [
  | inl same ↦ rw ((==_iff d code).0 same, e) (ground arith)
  | inr other ↦ rw other at h
]

module _ {k : Kernel} {c : Contents} {free : ℕ → List ℕ} (w : IsKernel k c free) (code i : ℕ)
    (is : List ℕ) (known : 0 < code) (small : code < 15) (first : free code ≡ i ∷ is) where
  pool_first : IsPool (k.pool code) (i ∷ is)
  pool_first = subst (IsPool (k.pool code)) first (w.pools code known small)

  -- The block is then no free block of its pool.
  pub taken-not_free : has i (update free code is code) ≡ false
  taken-not_free = rw (==_self code) pool_first.distinct.0

  pub taken_block-not_free :
      has (block_at code i / 16) (update free code is (block_at code i % 16)) ≡ false
  taken_block-not_free =
      rw (block_at_index code i (omega arith), block_at_code code i (omega arith)) taken-not_free

  -- The first free block of a pool is taken, cleared, and made an object of the pool's type.
  pub take-IsKernel :
      (o : Object)
      → code_of o ≡ code
      → (a : PoolAllocator) × (get_block code k
          ≡ ok (block_at code i, record k { pool = update k.pool code a }))
        × IsKernel
            (record k {
              lists = clear_item k.lists (block_at code i);
              object = update k.object (block_at code i) o;
              pool = update k.pool code a;
            })
            c
            (update free code is)
        × IsFree c (block_at code i)
  take-IsKernel o own =
      let (a, run, rest, same) = get_block-ok code i is k pool_first in
      let loose : IsFree c (block_at code i) =
        w.fresh code i (omega arith) (rw first (ground arith)) in
      (
        a,
        run,
        record {
          lists = clear_item-Represents k.lists c (block_at code i) w.lists loose;
          pools = pools-update k.pool free code a is w.pools rest;
          fresh = λ d j low f. w.fresh d j low (fresh-update free code i is first d j f);
          typed =
              store-typed k.object (block_at code i) o w.typed
                (own ∙ sym (block_at_code code i (omega arith)));
          inside =
              store-inside k.object (update k.pool code a) (block_at code i) o
                (inside-update k.object k.pool code a same w.inside)
                (rw
                  (
                    pool-update_max k.pool code a same (block_at code i % 16),
                    block_at_index code i (omega arith),
                    block_at_code code i (omega arith),
                  )
                  (pool_first.below i (ground arith)));
        },
        loose,
      )

module _ {k : Kernel} {c : Contents} {free : ℕ → List ℕ} (w : IsKernel k c free) (it : ℕ)
    (some_it : it ≢ 0) (loose : IsFree c it) (taken : has (it / 16) (free (it % 16)) ≡ false) where
  fresh-insert :
      (h : ℕ) (xs ys : List ℕ)
      → c h ≡ xs ++ ys
      → (code j : ℕ) → code < 16
      → has j (free code) ≡ true
      → IsFree (update c h (xs ++ it ∷ ys)) (block_at code j)
  fresh-insert h xs ys parts code j low f g =
      let ne : block_at code j ≢ it = λ e.
        let index : j ≡ it / 16 = omega arith in
        let own : code ≡ it % 16 = omega arith in
        ground (
          arith,
          subst (λ z. has z (free code) ≡ true) index f,
          subst (λ z. has (it / 16) (free z) ≡ false) (sym own) taken,
        ) in
      elim (Bool-cases (g == h)) [
        | inl same ↦
            rw (same, has-append (block_at code j) xs (it ∷ ys), ==-false (block_at code j) it ne)
              (subst (λ z. z ≡ false) (has-append (block_at code j) xs ys)
                (subst (λ z. has (block_at code j) z ≡ false) parts (w.fresh code j low f h)))
        | inr other ↦ rw other (w.fresh code j low f g)
      ]

  -- A block that is in no list and not free goes behind the items `xs` of a list.
  pub insert-IsKernel :
      (h : ℕ) (xs ys : List ℕ)
      → c h ≡ xs ++ ys
      → (l : ListMemory) × (insert h (last_or 0 xs) it k ≡ ok (it, record k { lists = l }))
        × IsKernel (record k { lists = l }) (update c h (xs ++ it ∷ ys)) free
  unfolding insert
  insert-IsKernel h xs ys parts =
      let (l, run, rep) = list_insert-Represents h it xs ys w.lists parts some_it loose in
      (
        l,
        rw run,
        record {
          lists = rep;
          pools = w.pools;
          fresh = fresh-insert h xs ys parts;
          typed = w.typed;
          inside = w.inside;
        },
      )

  pub insert_last-IsKernel :
      (h : ℕ)
      → (l : ListMemory) × (insert_last h it k ≡ ok (it, record k { lists = l }))
        × IsKernel (record k { lists = l }) (update c h (c h ++ it ∷ [])) free
  insert_last-IsKernel h =
      let (l, run, rep) = insert_last-ok h it k c w.lists some_it loose in
      (
        l,
        run,
        record {
          lists = rep;
          pools = w.pools;
          fresh = fresh-insert h (c h) [] (sym (append-nil (c h)));
          typed = w.typed;
          inside = w.inside;
        },
      )

-- An item that no list holds is still in none when another goes behind a list.
pub insert_last-IsFree :
    (c : Contents) (h it a : ℕ) → IsFree c a → a ≢ it → IsFree (update c h (c h ++ it ∷ [])) a
insert_last-IsFree c h it a free ne g =
    ground (arith, free g, free h, has-append a (c h) (it ∷ []), ne)
