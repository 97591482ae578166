-- ===== src/PoolAllocator/FreeList.antt =====
-- The free list as a sequence of indices, and what each operation does to it.
use native.Mathlib.Nat.{mul-le-mul}
use disastr_os_message_queue.Base.{
  ℕ, suc, ◌+◌, ◌*◌, ◌/◌, ◌%◌, ◌≤◌, ◌<◌, ◌≡◌, refl, true, false, List, [], ◌∷◌, arith, ◌==◌,
  if◌then◌else◌, update, ℤ, pos, sub_ℕ, ◌^◌, length, has, Distinct, ok, ==-false, ==_self, leb, not,
  sym, ltb_ℤ, to_int, to_int-pos, ap, ◌∙◌,
}
use disastr_os_message_queue.PoolAllocator.Chain.{
  Leads, Leads-update, Leads-ne_detached, range, has-range, Distinct-range, length-range,
  suc-sub-one, fill_lem, Leads-range,
}
use disastr_os_message_queue.PoolAllocator.{
  PoolAllocator, success, not_enough_memory, unaligned_free, double_free, null_idx, detached_idx,
  fill, init, take_index, block_address, get_block, release_index, release_block,
}

-- A pool whose free blocks are `is`, in the order in which they will be handed out; every other
-- block is handed out.
pub record IsPool (a : PoolAllocator) (is : List ℕ) : Type 0 where
  pub chain : Leads a.free_list a.first_idx is
  pub below : (i : ℕ) → has i is ≡ true → i < a.size_max
  pub distinct : Distinct is
  pub taken : (i : ℕ) → i < a.size_max → has i is ≡ false → a.free_list i ≡ detached_idx
  pub size : a.size ≡ pos (length is)
  pub item_size : 0 < a.item_size
  pub fits : a.size_max * a.item_size < 2 ^ 31

-- The offset of a block is an `int`.
fits-index :
    (a : PoolAllocator) (is : List ℕ)
    → IsPool a is
    → (i : ℕ) → i < a.size_max
    → i * a.item_size < 2 ^ 31
fits-index a is p i below =
    let short : i * a.item_size ≤ a.size_max * a.item_size =
      mul-le-mul (omega arith) (omega arith) in
    omega (arith, p.fits, short)

-- `take_index` hands out the first index of the free list, which is then free no more.
pub take_index-cons :
    (a : PoolAllocator) (i : ℕ) (is : List ℕ)
    → IsPool a (i ∷ is)
    → (a' : PoolAllocator) × (take_index a ≡ ok (pos i, a'))
      × IsPool a' is
      × (a'.size_max ≡ a.size_max)
unfolding take_index
take_index-cons a i is p = (
  record a {
    first_idx = a.free_list i;
    size = pos (length is);
    free_list = update a.free_list i detached_idx;
  },
  rw p.chain.0 (rw p.size (ground arith)),
  record {
    chain = Leads-update a.free_list (a.free_list i) is i detached_idx p.distinct.0 p.chain.1;
    below = λ j h. p.below j (ground arith);
    distinct = p.distinct.1;
    taken = λ j lt out. ground (arith, p.taken j lt);
    size = refl;
    item_size = p.item_size;
    fits = p.fits;
  },
  refl,
)

pub take_index-nil : (a : PoolAllocator) → IsPool a [] → take_index a ≡ ok (null_idx, a)
unfolding take_index
take_index-nil a p = rw p.chain

-- On a pool in order whose first free block is `i`: `PoolAllocator_getBlock` returns the address
-- of the block `i`, and leaves a pool in order with the other free blocks.
pub get_block-cons :
    (a : PoolAllocator) (i : ℕ) (is : List ℕ)
    → IsPool a (i ∷ is)
    → (a' : PoolAllocator) × (get_block a ≡ ok (a.buffer + i * a.item_size, a')) × IsPool a' is
unfolding get_block block_address
get_block-cons a i is p =
    let (a', run, rest, same) = take_index-cons a i is p in
    let inside : i * a.item_size < 2 ^ 31 = fits-index a (i ∷ is) p i (p.below i (ground arith)) in
    (a', rw run (ground (arith, inside)), rest)

pub get_block-nil : (a : PoolAllocator) → IsPool a [] → get_block a ≡ ok (0, a)
unfolding get_block block_address
get_block-nil a p = rw (take_index-nil a p)

-- On a pool in order, for the index of a block that is handed out: the second half of
-- `PoolAllocator_releaseBlock` returns Success, and leaves a pool in order with that block in
-- front of the free ones.
pub release_index-success :
    (a : PoolAllocator) (i : ℕ) (is : List ℕ)
    → IsPool a is
    → i < a.size_max
    → has i is ≡ false
    → (a' : PoolAllocator) × (release_index a i ≡ (success, a'))
      × IsPool a' (i ∷ is)
      × (a'.size_max ≡ a.size_max)
unfolding release_index
release_index-success a i is p lt out = (
  record a {
    free_list = update a.free_list i a.first_idx;
    first_idx = pos i;
    size = pos (length is + 1);
  },
  rw (p.taken i lt out) (rw p.size (ground arith)),
  record {
    chain =
        (refl, rw (==_self i) (Leads-update a.free_list a.first_idx is i a.first_idx out p.chain));
    below = λ j h. ground (arith, p.below j);
    distinct = (out, p.distinct);
    taken = λ j below_max absent. ground (arith, p.taken j);
    size = ap pos (omega arith);
    item_size = p.item_size;
    fits = p.fits;
  },
  refl,
)

-- On a pool in order, for the index of a free block: the second half of
-- `PoolAllocator_releaseBlock` returns DoubleFree and leaves the pool as it is.
pub release_index-double_free :
    (a : PoolAllocator) (i : ℕ) (is : List ℕ)
    → IsPool a is
    → has i is ≡ true
    → release_index a i ≡ (double_free, a)
unfolding release_index
release_index-double_free a i is p h =
    ground (arith, p.below i h, Leads-ne_detached a.free_list a.first_idx is p.chain i h)

-- What `PoolAllocator_releaseBlock` makes of an address `buffer + offset`, with an offset that is an
-- `int`.
pub release_block-offset :
    (a : PoolAllocator) (offset : ℕ)
    → 0 < a.item_size
    → offset < 2 ^ 31
    → release_block a (a.buffer + offset) ≡ (
        if not (offset % a.item_size == 0)
        then ok (unaligned_free, a)
        else ok (release_index a (offset / a.item_size)))
unfolding release_block
release_block-offset a offset some_size small =
    let ahead : sub_ℕ (a.buffer + offset) a.buffer ≡ pos offset = ground arith in
    rw (==-false a.item_size 0 (λ e. omega arith), ahead, to_int-pos offset small) refl

-- On a pool in order, for an index whose offset in the buffer is an `int`:
-- `PoolAllocator_releaseBlock` of the address `buffer + idx * item_size` is the release of that
-- index.
pub release_block-index :
    (a : PoolAllocator) (i : ℕ) (is : List ℕ)
    → IsPool a is
    → i * a.item_size < 2 ^ 31
    → release_block a (a.buffer + i * a.item_size) ≡ ok (release_index a i)
release_block-index a i is p small =
    let aligned : i * a.item_size % a.item_size ≡ 0 = grind (arith, p.item_size) in
    let index : i * a.item_size / a.item_size ≡ i = grind (arith, p.item_size) in
    release_block-offset a (i * a.item_size) p.item_size small ∙ rw (aligned, index)

-- With a positive item size, at least one item, and a memory of the size of an `int` in which the
-- items and their indices fit: `PoolAllocator_init` succeeds, and makes a pool that hands out the
-- blocks 0, 1, … in order.
pub init-IsPool :
    (a : PoolAllocator) (item_size n memory_block memory_size : ℕ)
    → 0 < item_size
    → suc n * (item_size + 4) ≤ memory_size
    → memory_size < 2 ^ 31
    → (a' : PoolAllocator) × (init a item_size (suc n) memory_block (pos memory_size)
        ≡ ok (success, a'))
      × IsPool a' (range 0 (suc n))
      × (a'.size_max ≡ suc n)
unfolding init
init-IsPool a item_size n memory_block memory_size some_size enough small = (
  made,
  rw
      (
        to_int-pos (suc n * (item_size + 4)) (omega (arith, enough)),
        has_memory,
        has_product,
        suc-sub-one n,
        ==-false (suc n) 0 (λ e. omega arith),
      )
      refl,
  record {
    chain =
        Leads-range made.free_list 0 n (λ j p q. ground (arith, fill_lem n 0 a.free_list j))
          (ground arith);
    below = λ i h. omega (arith, (has-range i 0 (suc n)).0 h);
    distinct = Distinct-range 0 (suc n);
    taken = λ i lt out. absurd (cc ((has-range i 0 (suc n)).1 (omega arith, omega arith)));
    size = ap pos (sym (length-range 0 (suc n)));
    item_size = some_size;
    fits = product;
  },
  refl,
)
  where
    shorter : suc n * item_size ≤ suc n * (item_size + 4)
    shorter = mul-le-mul {n₁ = suc n} (omega arith) (omega arith)

    product : suc n * item_size < 2 ^ 31
    product = omega (arith, shorter, enough)

    has_product : leb (2 ^ 31) (item_size * suc n) ≡ false
    has_product = ground (arith, product)

    has_memory : ltb_ℤ (pos memory_size) (pos (suc n * (item_size + 4))) ≡ false
    has_memory = ground (arith, enough)

    made : PoolAllocator
    made = record {
      buffer = memory_block;
      free_list = update (fill n 0 a.free_list) n null_idx;
      buffer_size = item_size * suc n;
      size = pos (suc n);
      size_max = suc n;
      item_size = item_size;
      first_idx = pos 0;
    }

-- With too little memory nothing is written.
pub init-not_enough_memory :
    (a : PoolAllocator) (item_size n memory_block : ℕ) (memory_size : ℤ)
    → ltb_ℤ memory_size (to_int (pos (n * (item_size + 4)))) ≡ true
    → init a item_size n memory_block memory_size ≡ ok (not_enough_memory, a)
unfolding init
init-not_enough_memory a item_size n memory_block memory_size less = rw less
