-- ===== src/Processes.antt =====
-- The calls that move processes between lists: disastrOS_sleep.c, disastrOS_schedule.c,
-- disastrOS_preempt.c, and the timer interrupt of disastrOS.c.
pub mod Blocks
pub mod Create
pub mod Wait
pub mod Exit
pub mod Turn
pub mod Wake
pub mod Interrupt
use disastr_os_message_queue.Base.{
  ℕ, zero, suc, ◌==◌, not, if◌then◌else◌, ℤ, pos, ◌+ℤ◌, is_int, ok, fault, out_of_fuel,
}
use disastr_os_message_queue.Kernel.Constants.{dsos_esleep}
use disastr_os_message_queue.Kernel.Object.{ready, running, waiting, pcb}
use disastr_os_message_queue.Kernel.State.{ready_list, waiting_list, timer_list, list_fuel}
use disastr_os_message_queue.Kernel.Cmd.{
  Cmd, ◌>>=◌, ◌>>◌, skip, gets, modify, head_of, insert, insert_last, detach, load, store, as_pcb,
  as_timer_item, running_pcb, update_running, set_retvalue, int_arg,
}
use disastr_os_message_queue.Timers.{timer_list_add, timer_list_current, timer_list_remove_current}

-- The sum of two `int`s; one that is no `int` is a fault.
abbrev int_sum : ℤ → ℤ → Cmd ℤ
int_sum a b k = if is_int (a +ℤ b) then ok (a +ℤ b, k) else fault

-- `internal_sleep`. The field `timer` of the process is not set.
unfoldable pub internal_sleep : Cmd (Unit {0})
unfolding is_int
internal_sleep = do
  r ← running_pcb
  if not (r.timer == 0) then set_retvalue dsos_esleep else do
    cycles ← int_arg 0
    now ← gets (λ k. k.disastr_os_time)
    self ← gets (λ k. k.running)
    wake_time ← int_sum now cycles
    new_timer ← timer_list_add timer_list wake_time self
    if new_timer == 0 then set_retvalue dsos_esleep else do
      update_running (λ p. record p { status = waiting })
      insert_last waiting_list self
      head ← head_of ready_list
      if head.first == 0
          then modify (λ k. record k { running = 0 })
          else do next ← detach ready_list head.first; modify (λ k. record k { running = next })

-- The loop of `internal_schedule` over the timers that have elapsed: each process goes behind the
-- one before, from the front of the ready list.
unfoldable pub wake : ℕ → ℕ → Cmd (Unit {0})
wake zero previous = λ k. out_of_fuel
wake (suc rounds) previous = do
  now ← gets (λ k. k.disastr_os_time)
  elapsed ← timer_list_current timer_list now
  if elapsed == 0 then skip else do
    timer ← load as_timer_item elapsed
    detach waiting_list timer.pcb
    p ← load as_pcb timer.pcb
    store timer.pcb (pcb (record p { status = ready; timer = 0 }))
    insert ready_list previous timer.pcb
    timer_list_remove_current timer_list
    wake rounds timer.pcb

-- The part that gives the turn to the first ready process.
unfoldable pub switch : Cmd (Unit {0})
switch = do
  head ← head_of ready_list
  if head.first == 0 then skip else do
    next ← detach ready_list head.first
    update_running (λ p. record p { status = ready })
    self ← gets (λ k. k.running)
    insert_last ready_list self
    p ← load as_pcb next
    store next (pcb (record p { status = running }))
    modify (λ k. record k { running = next })

-- `internal_schedule`
unfoldable pub internal_schedule : Cmd (Unit {0})
internal_schedule = do wake list_fuel 0; switch

-- `internal_preempt`
unfoldable pub internal_preempt : Cmd (Unit {0})
internal_preempt = internal_schedule

-- `timerInterrupt`, up to the return to the process.
unfoldable pub timer_interrupt : Cmd (Unit {0})
timer_interrupt = do
  modify (λ k. record k { disastr_os_time = k.disastr_os_time +ℤ pos 1 })
  internal_schedule
