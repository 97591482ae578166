-- ===== src/System/Start/Pools.antt =====
-- The pools once they are initialised.
use native.Mathlib.Nat.{mul-le-mul}
use disastr_os_message_queue.Base.{
  ℕ, suc, ◌+◌, ◌*◌, ◌^◌, ◌≤◌, ◌<◌, ◌≡◌, refl, arith, ◌==◌, if◌then◌else◌, ==_iff, Bool-cases, inl,
  inr, update, to_int-pos, ok,
}
use disastr_os_message_queue.PoolAllocator.{PoolAllocator}
use disastr_os_message_queue.PoolAllocator.Chain.{range}
use disastr_os_message_queue.PoolAllocator.FreeList.{IsPool, init-IsPool}
use disastr_os_message_queue.Kernel.State.{Kernel}
use disastr_os_message_queue.Kernel.Cmd.{Cmd, ◌>>◌}
use disastr_os_message_queue.Kernel.Laws.{then-ok}
use disastr_os_message_queue.System.Start.{
  pool_init, pcb_init, timer_init, resource_init, descriptor_init, semaphore_init,
  sem_descriptor_init, message_queue_init, mq_descriptor_init, queue_init, message_init, init_pools,
}

-- The items that each pool is given.
abbrev pub capacity : ℕ → ℕ
capacity code =
    if code == 10 then 16 else if code == 13 then 64 else if code == 14 then 128 else 1024

-- The pools up to the code `n` have all their blocks free, in order.
abbrev pub IsReady : (ℕ → PoolAllocator) → ℕ → Type 0
IsReady pool n =
    (code : ℕ)
    → 0 < code
    → code ≤ n
    → IsPool (pool code) (range 0 (capacity code)) × ((pool code).size_max ≡ capacity code)

-- The size of a buffer is an `int`.
room-fits : (size room : ℕ) → size + 4 < 65536 → room ≤ 32768 → room * (size + 4) < 2 ^ 31
room-fits size room small few =
    let bound : room * (size + 4) ≤ 32768 * 65535 = mul-le-mul {m₂ = 65535} few (omega arith) in
    omega (arith, bound)

module _ (size_of buffer_at : ℕ → ℕ) (some_size : (code : ℕ) → 0 < size_of code)
    (small : (code : ℕ) → size_of code + 4 < 65536) where
  -- One more pool.
  pool_init-IsReady :
      (k : Kernel) (code items room : ℕ)
      → capacity (suc code) ≡ suc items
      → suc items ≤ room
      → room ≤ 32768
      → IsReady k.pool code
      → (pool : ℕ → PoolAllocator) × (pool_init size_of buffer_at (suc code) (suc items) room k
          ≡ ok (tt, record k { pool = pool }))
        × IsReady pool (suc code)
  unfolding pool_init
  pool_init-IsReady k code items room cap fit few ready =
      let n : ℕ = suc code in
      let (a, run, pool, same) =
        init-IsPool (k.pool n) (size_of n) items (buffer_at n) (room * (size_of n + 4))
          (some_size n) (mul-le-mul fit (omega arith)) (room-fits (size_of n) room (small n) few) in
      (
        update k.pool n a,
        rw (to_int-pos (room * (size_of n + 4)) (room-fits (size_of n) room (small n) few), run)
            refl,
        λ d low high. elim (Bool-cases (d == n)) [
          | inl e ↦ rw (e, (==_iff d n).0 e, cap) (pool, same)
          | inr e ↦ rw e (ready d low (ground arith))
        ],
      )

  -- The pools after one step: the rest of the kernel is as it was.
  abbrev Makes : Cmd (Unit {0}) → ℕ → ℕ → Type 0
  Makes m from to =
      (k : Kernel)
      → IsReady k.pool from
      → (pool : ℕ → PoolAllocator) × (m k ≡ ok (tt, record k { pool = pool })) × IsReady pool to

  Makes-then : (m n : Cmd (Unit {0})) (a b c : ℕ) → Makes m a b → Makes n b c → Makes (m >> n) a c
  Makes-then m n a b c first next k ready =
      let (p, run, b') = first k ready in
      let (p', run', c') = next (record k { pool = p }) b' in (p', then-ok m n run run', c')

  Makes-pool :
      (code items room : ℕ)
      → capacity (suc code) ≡ suc items
      → suc items ≤ room
      → room ≤ 32768
      → Makes (pool_init size_of buffer_at (suc code) (suc items) room) code (suc code)
  Makes-pool code items room cap fit few k = pool_init-IsReady k code items room cap fit few

  pcb_init-Makes : Makes (pcb_init size_of buffer_at) 0 2
  unfolding pcb_init
  pcb_init-Makes =
      Makes-then _ _ 0 1 2 (Makes-pool 0 1023 1024 refl (omega arith) (omega arith))
        (Makes-pool 1 1023 1024 refl (omega arith) (omega arith))

  descriptor_init-Makes : Makes (descriptor_init size_of buffer_at) 4 6
  unfolding descriptor_init
  descriptor_init-Makes =
      Makes-then _ _ 4 5 6 (Makes-pool 4 1023 32768 refl (omega arith) (omega arith))
        (Makes-pool 5 1023 32768 refl (omega arith) (omega arith))

  sem_descriptor_init-Makes : Makes (sem_descriptor_init size_of buffer_at) 7 9
  unfolding sem_descriptor_init
  sem_descriptor_init-Makes =
      Makes-then _ _ 7 8 9 (Makes-pool 7 1023 32768 refl (omega arith) (omega arith))
        (Makes-pool 8 1023 32768 refl (omega arith) (omega arith))

  mq_descriptor_init-Makes : Makes (mq_descriptor_init size_of buffer_at) 10 12
  unfolding mq_descriptor_init
  mq_descriptor_init-Makes =
      Makes-then _ _ 10 11 12 (Makes-pool 10 1023 16384 refl (omega arith) (omega arith))
        (Makes-pool 11 1023 16384 refl (omega arith) (omega arith))

  timer_init-Makes : Makes (timer_init size_of buffer_at) 2 3
  unfolding timer_init
  timer_init-Makes = Makes-pool 2 1023 1024 refl (omega arith) (omega arith)

  resource_init-Makes : Makes (resource_init size_of buffer_at) 3 4
  unfolding resource_init
  resource_init-Makes = Makes-pool 3 1023 1024 refl (omega arith) (omega arith)

  semaphore_init-Makes : Makes (semaphore_init size_of buffer_at) 6 7
  unfolding semaphore_init
  semaphore_init-Makes = Makes-pool 6 1023 1024 refl (omega arith) (omega arith)

  message_queue_init-Makes : Makes (message_queue_init size_of buffer_at) 9 10
  unfolding message_queue_init
  message_queue_init-Makes = Makes-pool 9 15 16 refl (omega arith) (omega arith)

  queue_init-Makes : Makes (queue_init size_of buffer_at) 12 13
  unfolding queue_init
  queue_init-Makes = Makes-pool 12 63 64 refl (omega arith) (omega arith)

  message_init-Makes : Makes (message_init size_of buffer_at) 13 14
  unfolding message_init
  message_init-Makes = Makes-pool 13 127 128 refl (omega arith) (omega arith)

  pub init_pools-IsReady : Makes (init_pools size_of buffer_at) 0 14
  unfolding init_pools
  init_pools-IsReady = Makes-then _ _ 0 2 14 pcb_init-Makes (
      Makes-then _ _ 2 3 14 timer_init-Makes (
        Makes-then _ _ 3 4 14 resource_init-Makes (
          Makes-then _ _ 4 6 14 descriptor_init-Makes (
            Makes-then _ _ 6 7 14 semaphore_init-Makes (
              Makes-then _ _ 7 9 14 sem_descriptor_init-Makes (
                Makes-then _ _ 9 10 14 message_queue_init-Makes (
                  Makes-then _ _ 10 12 14 mq_descriptor_init-Makes
                    (Makes-then _ _ 12 13 14 queue_init-Makes message_init-Makes))))))))
