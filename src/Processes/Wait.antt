-- ===== src/Processes/Wait.antt =====
-- disastrOS_wait.c
pub mod Reap
use disastr_os_message_queue.Base.{
  ℕ, zero, suc, Bool, true, false, ◌==◌, ◌&&◌, ◌||◌, not, if◌then◌else◌, ℤ, pos, eqb_ℤ, ltb_ℤ, Run,
  ok, out_of_fuel, and_then,
}
use disastr_os_message_queue.Kernel.Constants.{dsos_ewait}
use disastr_os_message_queue.Kernel.Object.{ProcessStatus, zombie, waiting}
use disastr_os_message_queue.Kernel.State.{
  Kernel, waiting_list, ready_list, zombie_list, children, list_fuel,
}
use disastr_os_message_queue.Kernel.Cmd.{
  Cmd, ◌>>=◌, ◌>>◌, skip, gets, modify, head_of, insert_last, detach, load, as_pcb, as_pcb_ptr,
  write_int, update_running, set_retvalue, int_arg, pointer_arg,
}
use disastr_os_message_queue.Processes.Blocks.{pcb_free, pcb_ptr_free}

abbrev pub is_zombie : ProcessStatus → Bool
is_zombie zombie = true
is_zombie _ = false

-- The test that ends the loop.
abbrev pub is_awaited : ℤ → ℤ → ProcessStatus → Bool
is_awaited pid_to_wait pid status =
    (eqb_ℤ pid_to_wait (pos 0) && is_zombie status)
    || (not (eqb_ℤ pid_to_wait (pos 0)) && eqb_ℤ pid pid_to_wait)

-- The loop over the children, from the item `aux`: the values of `awaited_pcb_ptr` and `awaited_pcb`
-- behind it. When no child passes the test they are those of the last child.
unfoldable pub scan_children : ℕ → ℤ → (aux entry awaited : ℕ) → Kernel → Run (ℕ × ℕ)
scan_children zero pid_to_wait aux entry awaited k = out_of_fuel
scan_children (suc rounds) pid_to_wait aux entry awaited k =
    let next = (k.lists.item aux).next in
    if aux == 0
    then ok (entry, awaited)
    else and_then (as_pcb_ptr (k.object aux)) λ e.
      let rest = scan_children rounds pid_to_wait next aux e.pcb k in
      and_then (load as_pcb e.pcb k)
        λ (r, k'). if is_awaited pid_to_wait r.pid r.status then ok (aux, e.pcb) else rest

-- A child that is a zombie: its value is returned and its blocks are freed.
unfoldable pub reap : (entry awaited result : ℕ) → Cmd (Unit {0})
reap entry awaited result = do
  self ← gets (λ k. k.running)
  detach (children self) entry
  pcb_ptr_free entry
  detach zombie_list awaited
  r ← load as_pcb awaited
  set_retvalue r.pid
  (if result == 0 then skip else do r' ← load as_pcb awaited; write_int result r'.return_value)
  pcb_free awaited
  skip

-- Otherwise the process waits and the first ready process runs; its status is left as it was.
-- (`List_detach` dereferences NULL if no process is ready.)
unfoldable pub go_waiting : Cmd (Unit {0})
go_waiting = do
  self ← gets (λ k. k.running)
  update_running (λ p. record p { status = waiting })
  insert_last waiting_list self
  ready ← head_of ready_list
  next ← detach ready_list ready.first
  modify (λ k. record k { running = next })

-- Once the loop has ended.
unfoldable pub wait_for : ℤ → (entry awaited result : ℕ) → Cmd (Unit {0})
wait_for pid_to_wait entry awaited result =
    if ltb_ℤ (pos 0) pid_to_wait && awaited == 0
    then set_retvalue dsos_ewait
    else if awaited == 0
    then go_waiting
    else do
      r ← load as_pcb awaited
      if is_zombie r.status then reap entry awaited result else go_waiting

-- `internal_wait`
unfoldable pub internal_wait : Cmd (Unit {0})
internal_wait = do
  pid_to_wait ← int_arg 0
  result ← pointer_arg 1
  self ← gets (λ k. k.running)
  list ← head_of (children self)
  if list.first == 0 then set_retvalue dsos_ewait else do
    (entry, awaited) ←
        λ k. and_then (scan_children list_fuel pid_to_wait list.first 0 0 k) λ found. ok (found, k)
    wait_for pid_to_wait entry awaited result
