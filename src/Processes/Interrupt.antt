-- ===== src/Processes/Interrupt.antt =====
-- The timer interrupt as a whole: who becomes ready, and who runs.
use disastr_os_message_queue.Base.{
  ℕ, ◌%◌, ◌<◌, ◌≡◌, refl, sym, ◌∙◌, true, false, List, [], ◌∷◌, ◌++◌, arith, ap, pos, ◌+ℤ◌, ok, has,
  has-append, length, subst, inl, inr, Bool-cases, ◌==◌, ==_iff, update, true-ne-false,
  has-cons_other,
}
use disastr_os_message_queue.LinkedList.Memory.{Contents}
use disastr_os_message_queue.Kernel.Object.{Pcb, pcb, ready, running}
use disastr_os_message_queue.Kernel.State.{Kernel, ready_list, waiting_list, timer_list, list_fuel}
use disastr_os_message_queue.Kernel.Laws.{Runs, then-ok}
use disastr_os_message_queue.Kernel.Invariant.{IsKernel, code_at, IsKernel-frame}
use disastr_os_message_queue.Processes.{wake, switch, internal_schedule, timer_interrupt}
use disastr_os_message_queue.Processes.Turn.{IsApart, switch-Switched}
use disastr_os_message_queue.Processes.Wake.All.{Elapsed, Later, AllWoke, wake-AllWoke}

-- The clock has gone on by one.
abbrev pub ticked : Kernel → Kernel
ticked k = record k { disastr_os_time = k.disastr_os_time +ℤ pos 1 }

-- The processes of the elapsed timers are waiting.
Elapsed-waits :
    (k : Kernel) (c : Contents) (ts ps : List ℕ) (p : ℕ)
    → Elapsed k c ts ps
    → has p ps ≡ true
    → has p (c waiting_list) ≡ true
Elapsed-waits k c [] [] p e h = absurd (true-ne-false (sym h))
Elapsed-waits k c [] (q ∷ qs) p e h = absurd (true-ne-false e)
Elapsed-waits k c (t ∷ ts) [] p e h = absurd (true-ne-false e)
Elapsed-waits k c (t ∷ ts) (q ∷ qs) p (e, own, distinct, rest) h = elim (Bool-cases (p == q)) [
  | inl same ↦ subst (λ z. has z (c waiting_list) ≡ true) (own ∙ sym ((==_iff p q).0 same)) e.waits
  | inr other ↦ Elapsed-waits k c ts qs p rest (has-cons_other p q qs h other)
]

-- The kernel after an interrupt in which the processes `ps` awake and `next` gets the turn.
pub record Interrupted (k : Kernel) (c : Contents) (r : Pcb) (ps rest : List ℕ) (next : ℕ)
    (others : List ℕ) (k' : Kernel) (c' : Contents) (free' : ℕ → List ℕ) : Type 0 where
  pub kernel : IsKernel k' c' free'
  pub new_running : k'.running ≡ next
  pub process : (n : Pcb) × Runs k' n × (n.status ≡ running)
  pub preempted : k'.object k.running ≡ pcb (record r { status = ready })
  pub ready_processes : c' ready_list ≡ others ++ k.running ∷ []
  pub timers : c' timer_list ≡ rest
  pub asleep :
      (a : ℕ) → has a (c waiting_list) ≡ true → has a ps ≡ false → has a (c' waiting_list) ≡ true
  pub time : k'.disastr_os_time ≡ k.disastr_os_time +ℤ pos 1

module _ {k : Kernel} {c : Contents} {free : ℕ → List ℕ} (w : IsKernel k c free) {r : Pcb}
    (run : Runs k r) (away : IsApart k c free) (ts ps rest : List ℕ)
    (timers : c timer_list ≡ ts ++ rest) (short : length ts < list_fuel)
    (elapsed : Elapsed (ticked k) c ts ps) (later : Later (ticked k) rest)
    (typed : (a : ℕ) → has a (c ready_list) ≡ true → (n : Pcb) × (k.object a ≡ pcb n)) (next : ℕ)
    (others : List ℕ) (turn : ps ++ c ready_list ≡ next ∷ others) where
  ticked-IsKernel : IsKernel (ticked k) c free
  ticked-IsKernel = IsKernel-frame w refl refl refl

  running-asleep : has k.running ps ≡ false
  running-asleep = elim (Bool-cases (has k.running ps)) [
    | inl h ↦ absurd (
        true-ne-false
          (sym (Elapsed-waits (ticked k) c ts ps k.running elapsed h) ∙ away.loose waiting_list))
    | inr out ↦ out
  ]

  module _ (k1 : Kernel) (c1 : Contents) (free1 : ℕ → List ℕ)
      (all : AllWoke (ticked k) c free ps rest [] (c ready_list) k1 c1 free1) where
    still-IsApart : IsApart k1 c1 free1
    still-IsApart =
        let code : k.running % 16 ≡ 1 =
          code_at w k.running (pcb r) run.control_block (omega arith) in
        record {
          loose = rw all.same_running (all.loose k.running away.loose);
          taken = rw (all.same_running, code, all.free_pcbs) (rw code at away.taken);
        }

    next_block : (n : Pcb) × (k1.object next ≡ pcb n)
    next_block = elim (Bool-cases (has next ps)) [
      | inl h ↦ let (n, old_block, block) = all.awake next h in (_, block)
      | inr out ↦
          let in_both : has next (ps ++ c ready_list) ≡ true = rw turn (ground arith) in
          let (n, block) =
            typed next (ground (arith, has-append next ps (c ready_list), in_both)) in
          (n, all.other_objects next out ∙ block)
    ]

  -- In a kernel in order, with the running process in no list and in a block that is not free,
  -- every ready process with a control block, timers of which the first ones have elapsed once the
  -- clock goes on by one and the next one has not, fewer than the rounds of the loop, and whose
  -- processes `ps` differ and are in the waiting list, and with `next` and then `others` the
  -- processes `ps` followed by the ready ones: the timer interrupt ends, `next` runs, the ready
  -- list is `others` and then the process that ran, which is ready, the elapsed timers are gone
  -- and the others left, every other waiting process still waits, the clock has gone on by one,
  -- and the kernel is in order.
  pub timer_interrupt-Interrupted :
      (k' : Kernel) × (c' : Contents) × (free' : ℕ → List ℕ) × (timer_interrupt k ≡ ok (tt, k'))
      × Interrupted k c r ps rest next others k' c' free'
  unfolding timer_interrupt internal_schedule
  timer_interrupt-Interrupted =
      let (k1, c1, free1, run1, all) =
        wake-AllWoke ts ps list_fuel rest [] (c ready_list) ticked-IsKernel short timers refl
          elapsed later in
      let r1 : Runs k1 r = record {
        some_pcb = λ e. run.some_pcb (sym all.same_running ∙ e);
        control_block =
            rw all.same_running (all.other_objects k.running running-asleep ∙ run.control_block);
      } in
      let (n, block) = next_block k1 c1 free1 all in
      let (k2, run2, s) =
        switch-Switched all.kernel r1 (still-IsApart k1 c1 free1 all) next others
          (all.ready_processes ∙ turn) block in
      (
        k2,
        update c1 ready_list (others ++ k1.running ∷ []),
        free1,
        then-ok (wake list_fuel 0) switch run1 run2,
        record {
          kernel = s.kernel;
          new_running = s.new_running;
          process = (record n { status = running }, s.process, refl);
          preempted =
              subst (λ a. k2.object a ≡ pcb (record r { status = ready })) all.same_running
                s.preempted;
          ready_processes = ap (λ a. others ++ a ∷ []) all.same_running;
          timers = all.timers;
          asleep = all.asleep;
          time = s.same_time ∙ all.same_time;
        },
      )
