-- ===== src/System/Dispatch.antt =====
-- From the number of a system call to its handler, and back.
use disastr_os_message_queue.Base.{
  ℕ, ◌≡◌, refl, ap, ◌∙◌, fun_ext, true, false, ℤ, pos, eqb_ℤ, ok, and_then, none, some, update,
  ==_self, update_twice, arith,
}
use disastr_os_message_queue.Kernel.Constants.{
  dsos_max_syscalls, dsos_esyscall_not_implemented, dsos_esyscall_out_of_range,
}
use disastr_os_message_queue.Kernel.Object.{Object, Pcb, pcb}
use disastr_os_message_queue.Kernel.State.{Kernel}
use disastr_os_message_queue.Kernel.Cmd.{Cmd}
use disastr_os_message_queue.Kernel.Laws.{
  Runs, with_running, running_pcb-ok, update_running-ok, set_retvalue-ok,
}
use disastr_os_message_queue.System.{
  handlers, entry_of, bad_number, disastr_os_trap, copy_args, numarg, disastr_os_syscall,
}

-- The control block of a process that makes a call.
abbrev pub calling : ℤ → (ℕ → ℤ) → Pcb → Pcb
calling num args r = record r {
  syscall_num = num;
  syscall_args = copy_args (numarg num) args r.syscall_args;
}

-- The process gets `z` as the return value of its call.
abbrev pub answered : Kernel → Pcb → ℤ → Kernel
answered k r z = with_running k (record r { syscall_retvalue = z })

calling-Runs : (k : Kernel) (r r' : Pcb) → Runs k r → Runs (with_running k r') r'
calling-Runs k r r' run = record {
  some_pcb = run.some_pcb;
  control_block = rw (==_self k.running) refl;
}

module _ (k : Kernel) (r : Pcb) (run : Runs k r) where
  pub disastr_os_trap-refused :
      bad_number r.syscall_num ≡ true
      → disastr_os_trap k ≡ ok (tt, answered k r dsos_esyscall_out_of_range)
  unfolding disastr_os_trap
  disastr_os_trap-refused bad =
      rw (running_pcb-ok k r run) (rw bad (set_retvalue-ok k r run dsos_esyscall_out_of_range))

  module _ (good : bad_number r.syscall_num ≡ false)
      (in_table : eqb_ℤ r.syscall_num (pos dsos_max_syscalls) ≡ false) where
    pub disastr_os_trap-not_implemented :
        entry_of r.syscall_num handlers ≡ none
        → disastr_os_trap k ≡ ok (tt, answered k r dsos_esyscall_not_implemented)
    unfolding disastr_os_trap
    disastr_os_trap-not_implemented no_entry = rw (running_pcb-ok k r run) (
        rw good (rw in_table (rw no_entry (set_retvalue-ok k r run dsos_esyscall_not_implemented))))

    pub disastr_os_trap-handler :
        (nargs : ℕ) (handler : Cmd (Unit {0}))
        → entry_of r.syscall_num handlers ≡ some (nargs, handler)
        → disastr_os_trap k ≡ handler k
    unfolding disastr_os_trap
    disastr_os_trap-handler nargs handler entry =
        rw (running_pcb-ok k r run) (rw good (rw in_table (rw entry refl)))

module _ (k : Kernel) (r : Pcb) (run : Runs k r) (num : ℤ) (args : ℕ → ℤ) where
  pub disastr_os_syscall-out_of_range :
      bad_number num ≡ true
      → disastr_os_syscall num args k ≡ ok (some dsos_esyscall_out_of_range, k)
  unfolding disastr_os_syscall
  disastr_os_syscall-out_of_range bad = rw (running_pcb-ok k r run) (rw bad refl)

  module _ (good : bad_number num ≡ false)
      (in_table : eqb_ℤ num (pos dsos_max_syscalls) ≡ false) where
    enters :
        disastr_os_syscall num args k
        ≡ and_then (disastr_os_trap (with_running k (calling num args r))) λ (x, k'). ok (none, k')
    unfolding disastr_os_syscall
    enters = rw (running_pcb-ok k r run) (
        rw good (
          rw in_table (
            rw
              (update_running-ok k r run (λ p. record p {
                syscall_num = num;
                syscall_args = copy_args (numarg num) args p.syscall_args;
              }))
              refl)))

    pub disastr_os_syscall-handler :
        (nargs : ℕ) (handler : Cmd (Unit {0}))
        → entry_of num handlers ≡ some (nargs, handler)
        → disastr_os_syscall num args k
          ≡ and_then (handler (with_running k (calling num args r))) λ (x, k'). ok (none, k')
    disastr_os_syscall-handler nargs handler entry =
        enters
        ∙ ap (λ m. and_then m λ (x, k'). ok (none, k'))
            (disastr_os_trap-handler (with_running k (calling num args r)) (calling num args r)
              (calling-Runs k r (calling num args r) run) good in_table nargs handler entry)

    no_args : (i : ℕ) → copy_args 0 args r.syscall_args i ≡ r.syscall_args i
    unfolding copy_args
    no_args i = ground arith

    -- When a process runs, for a number in the range of the table that has no handler:
    -- `disastrOS_syscall` sets the number of the call and DSOS_ESYSCALL_NOT_IMPLEMENTED as the
    -- return value, and changes nothing else.
    pub disastr_os_syscall-not_implemented :
        entry_of num handlers ≡ none
        → disastr_os_syscall num args k
          ≡ ok (none, answered k (record r { syscall_num = num }) dsos_esyscall_not_implemented)
    unfolding copy_args
    disastr_os_syscall-not_implemented no_entry =
        let same_args : copy_args (numarg num) args r.syscall_args ≡ r.syscall_args =
          fun_ext λ i. rw (numarg, no_entry) (no_args i) in
        enters
        ∙ ap (λ m. and_then m λ (x, k'). ok (none, k'))
            (disastr_os_trap-not_implemented (with_running k (calling num args r))
              (calling num args r) (calling-Runs k r (calling num args r) run) good in_table
              no_entry)
        ∙ ap (λ (o : ℕ → Object). ok (none, record k { object = o }))
            (update_twice k.object k.running (pcb (calling num args r)) _
              ∙ ap
                  (λ (a : ℕ → ℤ). update k.object k.running (
                    pcb (record r {
                      syscall_num = num;
                      syscall_args = a;
                      syscall_retvalue = dsos_esyscall_not_implemented;
                    })))
                  same_args)
