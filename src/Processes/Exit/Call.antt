-- ===== src/Processes/Exit/Call.antt =====
-- The whole call `internal_exit`, when the parent does not wait.
use Prim.Native.Nat.{bit_and, bit_or}
use disastr_os_message_queue.Base.{ℕ, ◌≡◌, ◌≢◌, true, List, to_int, has}
use disastr_os_message_queue.LinkedList.Memory.{Contents}
use disastr_os_message_queue.Kernel.Constants.{dsos_sigchld}
use disastr_os_message_queue.Kernel.Object.{Object, Pcb, pcb, zombie}
use disastr_os_message_queue.Kernel.State.{Kernel}
use disastr_os_message_queue.Kernel.Laws.{with_running}
use disastr_os_message_queue.Processes.Exit.Children.All.{Reparented, child_of}
use disastr_os_message_queue.Processes.Exit.Die.{Died}

-- The running process with its value.
abbrev pub with_value : Pcb → Pcb
with_value r = record r { return_value = to_int (r.syscall_args 0) }

-- First the children are those of `init`, in the kernel `k2`, and then the process dies. Unless they
-- are processes of these children, both have their own signals until then.
pub record Exited (k : Kernel) (c : Contents) (free : ℕ → List ℕ) (r parent : Pcb) (es : List ℕ)
    (next : ℕ) (rest : List ℕ) (k' : Kernel) : Type 0 where
  pub k2 : Kernel
  pub c2 : Contents
  pub signals : ℕ
  pub parent_signals : ℕ
  pub children_first :
      Reparented (with_running k (with_value r)) c free k.running k.init_pcb es k2 c2
  pub running_before : k2.object k.running ≡ pcb (record (with_value r) { signals = signals })
  pub parent_before : k2.object r.parent ≡ pcb (record parent { signals = parent_signals })
  pub then_death :
      Died k2 c2 free
        (record (with_value r) { signals = signals })
        (record parent { signals = parent_signals })
        next
        rest
        k'
  pub dead :
      ((e : ℕ) → has e es ≡ true → child_of (k.object e) ≢ k.running)
      → k'.object k.running ≡ pcb (record (with_value r) { status = zombie })
  pub parent_told :
      ((e : ℕ) → has e es ≡ true → child_of (k.object e) ≢ r.parent)
      → (p : Pcb) × (k'.object r.parent ≡ pcb p)
        × (p.signals ≡ bit_or parent.signals (bit_and dsos_sigchld parent.signals_mask))
