-- ===== src/PoolAllocator.antt =====
-- pool_allocator.c and pool_allocator.h: blocks of one size in a static buffer, with a free list of
-- indices behind them.
--
-- Item sizes and numbers of items are `int`s that are not negative; their products are `int`s too, and
-- one that does not fit is a fault.
--
-- `free_list` is the array behind the blocks, a table from indices to `int`s. Addresses and sizes are
-- numbers. `take_index` and `release_index` are the parts of `PoolAllocator_getBlock` and
-- `PoolAllocator_releaseBlock` that work on indices.
pub mod Chain
pub mod FreeList
use Prim.Native.String.{String}
use disastr_os_message_queue.Base.{
  ℕ, zero, suc, ◌+◌, ◌-◌, ◌*◌, ◌/◌, ◌%◌, Bool, ◌||◌, not, ltb, leb, ◌==◌, if◌then◌else◌, update, ℤ,
  pos, negsuc, ◌^◌, sub_ℕ, ◌+ℤ◌, ◌-ℤ◌, eqb_ℤ, ltb_ℤ, to_int, Run, ok, fault, and_then,
}

pub data PoolAllocatorResult : Type 0 where
  success not_enough_memory unaligned_free out_of_range double_free : PoolAllocatorResult

-- The value of the enumeration in C.
unfoldable pub result_code : PoolAllocatorResult → ℤ
result_code success = pos 0
result_code not_enough_memory = negsuc 0
result_code unaligned_free = negsuc 1
result_code out_of_range = negsuc 2
result_code double_free = negsuc 3

abbrev pub null_idx : ℤ
null_idx = negsuc 0

abbrev pub detached_idx : ℤ
detached_idx = negsuc 1

pub record PoolAllocator : Type 0 where
  pub buffer : ℕ
  pub free_list : ℕ → ℤ
  pub buffer_size : ℕ
  pub size : ℤ
  pub size_max : ℕ
  pub item_size : ℕ
  pub first_idx : ℤ

-- `for (; i < size - 1; ++i) free_list[i] = i + 1`, with the rounds that are left.
unfoldable pub fill : ℕ → ℕ → (ℕ → ℤ) → ℕ → ℤ
fill zero i f = f
fill (suc rounds) i f = fill rounds (i + 1) (update f i (pos (i + 1)))

-- `PoolAllocator_init`. The size that is requested is a `size_t` converted to `int`; the size of the
-- buffer and the place of the free list are an `int` product. With no item at all,
-- `free_list[size - 1]` is written out of bounds.
unfoldable pub init :
    PoolAllocator
    → (item_size num_items memory_block : ℕ) → (memory_size : ℤ)
    → Run (PoolAllocatorResult × PoolAllocator)
unfolding fill to_int
init a item_size num_items memory_block memory_size =
    if ltb_ℤ memory_size (to_int (pos (num_items * (item_size + 4))))
    then ok (not_enough_memory, a)
    else if leb (2 ^ 31) (item_size * num_items)
    then fault
    else if num_items == 0
    then fault
    else ok (
      success,
      record {
        buffer = memory_block;
        free_list = update (fill (num_items - 1) 0 a.free_list) (num_items - 1) null_idx;
        buffer_size = item_size * num_items;
        size = pos num_items;
        size_max = num_items;
        item_size = item_size;
        first_idx = pos 0;
      },
    )

-- The index of the block that `PoolAllocator_getBlock` hands out, or -1. The array is not read at
-- any other negative index.
unfoldable pub take_index : PoolAllocator → Run (ℤ × PoolAllocator)
take_index a = elim a.first_idx [
  | negsuc zero ↦ ok (null_idx, a)
  | negsuc (suc n) ↦ fault
  | pos i ↦ ok (
    pos i,
    record a {
      first_idx = a.free_list i;
      size = a.size -ℤ pos 1;
      free_list = update a.free_list i detached_idx;
    },
  )
]

-- The address of a block, or NULL.
unfoldable pub block_address : PoolAllocator → ℤ → Run ℕ
block_address a (pos i) =
    if leb (2 ^ 31) (i * a.item_size) then fault else ok (a.buffer + i * a.item_size)
block_address a (negsuc n) = ok 0

unfoldable pub get_block : PoolAllocator → Run (ℕ × PoolAllocator)
unfolding take_index block_address
get_block a =
    and_then (take_index a) λ (idx, a'). and_then (block_address a idx) λ block. ok (block, a')

-- The checks on the index and the insertion in front of the free list.
unfoldable pub release_index : PoolAllocator → ℕ → PoolAllocatorResult × PoolAllocator
release_index a idx =
    if leb a.size_max idx
    then (out_of_range, a)
    else if not (eqb_ℤ (a.free_list idx) detached_idx)
    then (double_free, a)
    else (
      success,
      record a {
        free_list = update a.free_list idx a.first_idx;
        first_idx = pos idx;
        size = a.size +ℤ pos 1;
      },
    )

-- `PoolAllocator_releaseBlock`. The difference of the two addresses is converted to `int`. A negative
-- offset is unaligned or has a negative index.
unfoldable pub release_block : PoolAllocator → ℕ → Run (PoolAllocatorResult × PoolAllocator)
unfolding release_index to_int
release_block a block = if a.item_size == 0 then fault else elim (to_int (sub_ℕ block a.buffer)) [
  | pos offset ↦
      if not (offset % a.item_size == 0)
      then ok (unaligned_free, a)
      else ok (release_index a (offset / a.item_size))
  | negsuc below ↦
      if not (suc below % a.item_size == 0) then ok (unaligned_free, a) else ok (out_of_range, a)
]

-- `PoolAllocator_strerrors[-result]`
unfoldable pub strerror : PoolAllocatorResult → String
strerror success = "Success"
strerror not_enough_memory = "NotEnoughMemory"
strerror unaligned_free = "UnalignedFree"
strerror out_of_range = "OutOfRange"
strerror double_free = "DoubleFree"
