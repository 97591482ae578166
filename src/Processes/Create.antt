-- ===== src/Processes/Create.antt =====
-- disastrOS_fork.c and disastrOS_spawn.c
pub mod Forked
use disastr_os_message_queue.Base.{ℕ, ◌==◌, if◌then◌else◌, not}
use disastr_os_message_queue.Kernel.Constants.{dsos_espawn}
use disastr_os_message_queue.Kernel.Object.{pcb, ready}
use disastr_os_message_queue.Kernel.State.{ready_list, children}
use disastr_os_message_queue.Kernel.Cmd.{
  Cmd, ◌>>=◌, ◌>>◌, gets, assert, insert_last, load, store, as_pcb, running_pcb, set_retvalue,
}
use disastr_os_message_queue.Processes.Blocks.{pcb_alloc, pcb_ptr_alloc}

-- `internal_fork`
unfoldable pub internal_fork : Cmd (Unit {0})
internal_fork = do
  new ← pcb_alloc
  if new == 0 then set_retvalue dsos_espawn else do
    r ← load as_pcb new
    self ← gets (λ k. k.running)
    store new (pcb (record r { status = ready; parent = self }))
    entry ← pcb_ptr_alloc new
    assert (not (entry == 0))
    running_pcb
    insert_last (children self) entry
    insert_last ready_list new
    r' ← load as_pcb new
    set_retvalue r'.pid

-- `internal_spawn`: the text of `internal_fork`, and then the preparation of the new process's CPU
-- state, which is not modelled.
unfoldable pub internal_spawn : Cmd (Unit {0})
internal_spawn = internal_fork
