-- ===== src/Processes/Exit.antt =====
-- disastrOS_exit.c
pub mod Children
pub mod Die
pub mod Loops
pub mod Report
pub mod Call
use Prim.Native.Nat.{bit_and, bit_or}
use disastr_os_message_queue.Base.{
  ℕ, zero, suc, Bool, true, false, ◌==◌, ◌&&◌, ◌||◌, not, if◌then◌else◌, ℤ, pos, negsuc, eqb_ℤ,
  out_of_fuel,
}
use disastr_os_message_queue.Kernel.Constants.{dsos_sigchld, dsos_sighup, dsos_call_wait}
use disastr_os_message_queue.Kernel.Object.{ProcessStatus, Pcb, zombie, waiting, running, pcb}
use disastr_os_message_queue.Kernel.State.{
  waiting_list, ready_list, zombie_list, timer_list, children, descriptors, target_descriptors,
  list_fuel,
}
use disastr_os_message_queue.Kernel.Cmd.{
  Cmd, ◌>>=◌, ◌>>◌, skip, gets, modify, failure, assert, head_of, insert_last, detach, load, store,
  as_pcb, as_pcb_ptr, as_timer_item, as_descriptor, write_int, running_pcb, update_running, int_arg,
}
use disastr_os_message_queue.Timers.{timer_item_free}
use disastr_os_message_queue.Resources.Blocks.{descriptor_free, descriptor_ptr_free}
use disastr_os_message_queue.Processes.Blocks.{pcb_free, pcb_ptr_by_pid}

-- `pcb->signals |= (signal & pcb->signals_mask)`
abbrev pub with_signal : ℕ → Pcb → Pcb
with_signal signal r = record r { signals = bit_or r.signals (bit_and signal r.signals_mask) }

unfoldable pub send_signal : ℕ → ℕ → Cmd (Unit {0})
send_signal signal p = do r ← load as_pcb p; store p (pcb (with_signal signal r))

-- The loop that hands the children of `self` to the process `init`.
unfoldable pub reparent : ℕ → (self init : ℕ) → Cmd (Unit {0})
reparent zero self init = λ k. out_of_fuel
reparent (suc rounds) self init = do
  list ← head_of (children self)
  if list.first == 0 then skip else do
    item ← detach (children self) list.first
    assert (not (item == 0))
    insert_last (children init) item
    e ← load as_pcb_ptr item
    send_signal dsos_sighup e.pcb
    reparent rounds self init

abbrev pub is_waiting : ProcessStatus → Bool
is_waiting waiting = true
is_waiting _ = false

-- The parent waits for this process, or for any.
abbrev pub waits_for : Pcb → ℤ → Bool
waits_for parent pid =
    is_waiting parent.status
    && (eqb_ℤ parent.syscall_num dsos_call_wait
        && (eqb_ℤ (parent.syscall_args 0) (pos 0) || eqb_ℤ (parent.syscall_args 0) pid))

-- The loop that drops the timers of the process.
unfoldable pub drop_timers : ℕ → (aux self : ℕ) → Cmd (Unit {0})
drop_timers zero aux self = λ k. out_of_fuel
drop_timers (suc rounds) aux self = if aux == 0 then skip else do
  next ← gets (λ k. (k.lists.item aux).next)
  timer ← load as_timer_item aux
  (if timer.pcb == self
      then (do
        detached ← detach timer_list aux
        assert (not (detached == 0))
        timer_item_free aux
        skip)
      else skip)
  drop_timers rounds next self

-- The loop that closes the resources of the process.
unfoldable pub drop_descriptors : ℕ → ℕ → Cmd (Unit {0})
drop_descriptors zero self = λ k. out_of_fuel
drop_descriptors (suc rounds) self = do
  list ← head_of (descriptors self)
  if list.first == 0 then skip else do
    detach (descriptors self) list.first
    d ← load as_descriptor list.first
    (if d.target == 0 then failure else skip)
    detach (target_descriptors d.target) d.ptr
    descriptor_ptr_free d.ptr
    descriptor_free list.first
    drop_descriptors rounds self

-- The parent was waiting: it gets the value and runs, and this process is freed. The entry in the
-- parent's list of children is detached and not freed.
unfoldable pub report : (self parent : ℕ) → Cmd (Unit {0})
report self parent = do
  detached ← detach waiting_list parent
  assert (not (detached == 0))
  p ← load as_pcb detached
  store detached (pcb (record p { status = running }))
  r ← load as_pcb self
  entry ← pcb_ptr_by_pid (children detached) r.pid
  detach (children detached) entry
  r' ← load as_pcb self
  p' ← load as_pcb detached
  store detached (pcb (record p' { syscall_retvalue = r'.pid }))
  elim (p'.syscall_args 1) [
    | pos n ↦ if n == 0 then skip else write_int n r'.return_value
    | negsuc n ↦ failure
  ]
  timers ← head_of timer_list
  drop_timers list_fuel timers.first self
  drop_descriptors list_fuel self
  item ← detach zombie_list self
  pcb_free item
  modify (λ k. record k { running = detached })

-- Nobody waits: the first ready process runs. (`List_detach` dereferences NULL if there is none.)
unfoldable pub run_next : Cmd (Unit {0})
run_next = do
  ready ← head_of ready_list
  next ← detach ready_list ready.first
  assert (not (next == 0))
  n ← load as_pcb next
  store next (pcb (record n { status = running }))
  modify (λ k. record k { running = next })

-- Once the children are handed over.
unfoldable pub die : ℕ → Cmd (Unit {0})
die self = do
  update_running (λ r. record r { status = zombie })
  insert_last zombie_list self
  r ← running_pcb
  send_signal dsos_sigchld r.parent
  parent ← load as_pcb r.parent
  r' ← running_pcb
  if waits_for parent r'.pid then report self r.parent else run_next

-- `internal_exit`. The exit value is converted to an `int`.
unfoldable pub internal_exit : Cmd (Unit {0})
internal_exit = do
  value ← int_arg 0
  update_running (λ r. record r { return_value = value })
  init ← gets (λ k. k.init_pcb)
  assert (not (init == 0))
  self ← gets (λ k. k.running)
  reparent list_fuel self init
  die self
