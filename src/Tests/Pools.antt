-- ===== src/Tests/Pools.antt =====
-- The pool operations on small pools.
use disastr_os_message_queue.Base.{◌≡◌, refl, [], ◌∷◌, arith, pos, ok}
use disastr_os_message_queue.PoolAllocator.{
  PoolAllocator, success, double_free, init, get_block, release_index, release_block,
}
use disastr_os_message_queue.PoolAllocator.Chain.{range}
use disastr_os_message_queue.PoolAllocator.FreeList.{
  IsPool, init-IsPool, get_block-cons, release_index-success, release_index-double_free,
  release_block-index,
}
use disastr_os_message_queue.Tests.Machine.{small_pool, small_pool-IsPool}

init-IsPool_example :
    (a' : PoolAllocator) × (init small_pool 16 3 4000 (pos 60) ≡ ok (success, a'))
    × IsPool a' (range 0 3)
    × (a'.size_max ≡ 3)
init-IsPool_example = init-IsPool small_pool 16 2 4000 60 (omega arith) (omega arith) (omega arith)

get_block-cons_example :
    (a' : PoolAllocator) × (get_block small_pool ≡ ok (1048, a')) × IsPool a' []
get_block-cons_example = get_block-cons small_pool 3 [] small_pool-IsPool

release_index-success_example :
    (a' : PoolAllocator) × (release_index small_pool 0 ≡ (success, a'))
    × IsPool a' (0 ∷ 3 ∷ [])
    × (a'.size_max ≡ 4)
release_index-success_example =
    release_index-success small_pool 0 (3 ∷ []) small_pool-IsPool (omega arith) refl

release_index-double_free_example : release_index small_pool 3 ≡ (double_free, small_pool)
release_index-double_free_example =
    release_index-double_free small_pool 3 (3 ∷ []) small_pool-IsPool refl

release_block-index_example : release_block small_pool 1032 ≡ ok (release_index small_pool 2)
release_block-index_example =
    release_block-index small_pool 2 (3 ∷ []) small_pool-IsPool (omega arith)
