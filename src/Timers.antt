-- ===== src/Timers.antt =====
-- disastrOS_timer.c: the list of timers, sorted by their awakening time.
pub mod Sorted
pub mod Add
pub mod Current
use disastr_os_message_queue.Base.{
  ℕ, zero, suc, ◌==◌, if◌then◌else◌, ℤ, pos, negsuc, ltb_ℤ, Run, ok, out_of_fuel, and_then,
}
use disastr_os_message_queue.PoolAllocator.{PoolAllocatorResult}
use disastr_os_message_queue.Kernel.Object.{timer_item}
use disastr_os_message_queue.Kernel.State.{Kernel, timer_item_pool, list_fuel}
use disastr_os_message_queue.Kernel.Cmd.{
  Cmd, ◌>>=◌, ◌>>◌, pure, head_of, insert, detach, init_list, clear_links, load, store,
  as_timer_item, get_block, release_block,
}

-- `TimerItem_alloc`
unfoldable pub timer_item_alloc : ℤ → ℕ → Cmd ℕ
timer_item_alloc awakening_time pcb = do
  r ← get_block timer_item_pool
  if r == 0 then pure 0 else do
    clear_links r
    store r (timer_item (record { awakening_time = awakening_time; pcb = pcb }))
    pure r

-- `TimerItem_free`
unfoldable pub timer_item_free : ℕ → Cmd PoolAllocatorResult
timer_item_free = release_block timer_item_pool

-- `TimerList_init`
unfoldable pub timer_list_init : ℕ → Cmd (Unit {0})
timer_list_init = init_list

-- The scan of `TimerList_add`: the last item before the first that awakes later than the new one.
unfoldable pub scan : ℕ → ℤ → (aux previous : ℕ) → Kernel → Run ℕ
scan zero time aux previous k = out_of_fuel
scan (suc rounds) time aux previous k =
    let rest = scan rounds time (k.lists.item aux).next aux k in
    if aux == 0
    then ok previous
    else and_then (as_timer_item (k.object aux))
        λ item. if ltb_ℤ time item.awakening_time then ok previous else rest

-- `TimerList_add`
unfoldable pub timer_list_add : ℕ → ℤ → ℕ → Cmd ℕ
timer_list_add timers awakening_time pcb = do
  list ← head_of timers
  previous ← λ k. and_then (scan list_fuel awakening_time list.first 0 k) λ p. ok (p, k)
  new_item ← timer_item_alloc awakening_time pcb
  if new_item == 0 then pure 0 else do insert timers previous new_item; pure new_item

-- `TimerList_current`
unfoldable pub timer_list_current : ℕ → ℤ → Cmd ℕ
timer_list_current timers current_time = do
  list ← head_of timers
  if list.first == 0 then pure 0 else do
    item ← load as_timer_item list.first
    if ltb_ℤ current_time item.awakening_time then pure 0 else pure list.first

-- `TimerList_removeCurrent`
unfoldable pub timer_list_remove_current : ℕ → Cmd ℤ
timer_list_remove_current timers = do
  list ← head_of timers
  item ← detach timers list.first
  if item == 0 then pure (negsuc 0) else do timer_item_free item; pure (pos 0)
