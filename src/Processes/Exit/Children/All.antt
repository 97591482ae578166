-- ===== src/Processes/Exit/Children/All.antt =====
-- The children of a process that exits go to the process `init`: the whole loop.
use Prim.Native.Nat.{bit_and, bit_or}
use disastr_os_message_queue.Base.{ℕ, ◌≡◌, ◌≢◌, List, [], ◌∷◌, ◌++◌, update}
use disastr_os_message_queue.LinkedList.Memory.{Contents}
use disastr_os_message_queue.Kernel.Constants.{dsos_sighup}
use disastr_os_message_queue.Kernel.Object.{Object, pcb, pcb_ptr}
use disastr_os_message_queue.Kernel.State.{Kernel, children}
use disastr_os_message_queue.Kernel.Invariant.{IsKernel}

-- The objects once the process of an entry has got the signal SIGHUP, unless its mask is without it.
abbrev pub child_of : Object → ℕ
child_of (pcb_ptr e) = e.pcb
child_of _ = 0

abbrev pub signalled : Object → Object
signalled (pcb r) =
    pcb (record r { signals = bit_or r.signals (bit_and dsos_sighup r.signals_mask) })
signalled o = o

abbrev pub hung_up : (ℕ → Object) → ℕ → ℕ → Object
hung_up object e = update object (child_of (object e)) (signalled (object (child_of (object e))))

abbrev pub all_hung_up : (ℕ → Object) → List ℕ → ℕ → Object
all_hung_up object [] = object
all_hung_up object (e ∷ es) = all_hung_up (hung_up object e) es

-- The kernel once the children `es` of `self` are those of `init`.
pub record Reparented (k : Kernel) (c : Contents) (free : ℕ → List ℕ) (self init : ℕ) (es : List ℕ)
    (k' : Kernel) (c' : Contents) : Type 0 where
  pub kernel : IsKernel k' c' free
  pub childless : c' (children self) ≡ []
  pub adopted : c' (children init) ≡ c (children init) ++ es
  pub other_lists : (h : ℕ) → h ≢ children self → h ≢ children init → c' h ≡ c h
  pub objects : k'.object ≡ all_hung_up k.object es
  pub same_running : k'.running ≡ k.running
