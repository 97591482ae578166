-- ===== src/Processes/Wake/All.antt =====
-- The loop of `internal_schedule` over the timers that have elapsed: all rounds.
use disastr_os_message_queue.Base.{
  ℕ, zero, suc, ◌<◌, ◌≡◌, refl, sym, ◌∙◌, ◌≢◌, true, false, List, [], ◌∷◌, ◌++◌, arith, ap, ok, has,
  has-append, has-split, has-remove, true-ne-false, length, append_assoc, ==-false, ==_self, ltb_ℤ,
  last_or, last_or-append, subst, inl, inr, Bool-cases, ◌==◌, ==_iff, ==-ne, has-cons_other,
  ne_of_has, has_middle,
}
use disastr_os_message_queue.LinkedList.Memory.{Contents, IsFree}
use disastr_os_message_queue.Kernel.Object.{Object, Pcb, TimerItem, pcb, timer_item, ready}
use disastr_os_message_queue.Kernel.State.{Kernel, ready_list, waiting_list, timer_list, pcb_pool}
use disastr_os_message_queue.Kernel.Invariant.{IsKernel, code_of}
use disastr_os_message_queue.Timers.Current.{timer_list_current-nil, timer_list_current-later}
use disastr_os_message_queue.Processes.{wake}
use disastr_os_message_queue.Processes.Wake.{IsElapsed, Woke, woken_lists, wake-Woke}

-- The timers `ts` have elapsed, and their processes are the `ps`, which are different.
abbrev pub Elapsed : Kernel → Contents → List ℕ → List ℕ → Type 0
Elapsed k c [] [] = Unit
Elapsed k c (t ∷ ts) (p ∷ ps) =
    (e : IsElapsed k c t) × (e.item.pcb ≡ p) × (has p ps ≡ false) × Elapsed k c ts ps
Elapsed k c _ _ = true ≡ false

-- The first of these timers has not elapsed.
abbrev pub Later : Kernel → List ℕ → Type 0
Later k [] = Unit
Later k (t ∷ ts) =
    (item : TimerItem) × (k.object t ≡ timer_item item)
    × (ltb_ℤ k.disastr_os_time item.awakening_time ≡ true)

-- The kernel once the processes `ps` are ready, behind those woken before, and the timers `rest` left.
pub record AllWoke (k : Kernel) (c : Contents) (free : ℕ → List ℕ) (ps rest woken old : List ℕ)
    (k' : Kernel) (c' : Contents) (free' : ℕ → List ℕ) : Type 0 where
  pub kernel : IsKernel k' c' free'
  pub timers : c' timer_list ≡ rest
  pub ready_processes : c' ready_list ≡ woken ++ (ps ++ old)
  pub asleep :
      (a : ℕ) → has a (c waiting_list) ≡ true → has a ps ≡ false → has a (c' waiting_list) ≡ true
  pub other_lists : (h : ℕ) → h ≢ timer_list → h ≢ ready_list → h ≢ waiting_list → c' h ≡ c h
  pub loose : (a : ℕ) → IsFree c a → IsFree c' a
  pub free_pcbs : free' pcb_pool ≡ free pcb_pool
  pub awake :
      (p : ℕ)
      → has p ps ≡ true
      → (r : Pcb) × (k.object p ≡ pcb r)
        × (k'.object p ≡ pcb (record r { status = ready; timer = 0 }))
  pub other_objects : (a : ℕ) → has a ps ≡ false → k'.object a ≡ k.object a
  pub same_running : k'.running ≡ k.running
  pub same_time : k'.disastr_os_time ≡ k.disastr_os_time

-- When no timer has elapsed nothing changes.
no_one :
    (k : Kernel) (c : Contents) (free : ℕ → List ℕ) (rest woken old : List ℕ)
    → IsKernel k c free
    → c timer_list ≡ rest
    → c ready_list ≡ woken ++ old
    → AllWoke k c free [] rest woken old k c free
no_one k c free rest woken old w timers parts = record {
  kernel = w;
  timers = timers;
  ready_processes = parts;
  asleep = λ a h out. h;
  other_lists = λ h ne ne' ne''. refl;
  loose = λ a out. out;
  free_pcbs = refl;
  awake = λ p h. absurd (true-ne-false (sym h));
  other_objects = λ a out. refl;
  same_running = refl;
  same_time = refl;
}

-- A timer is no process.
timer_ne_pcb :
    (object : ℕ → Object) (t p : ℕ) (item : TimerItem) (r : Pcb)
    → object t ≡ timer_item item
    → object p ≡ pcb r
    → t ≢ p
timer_ne_pcb object t p item r e e' z =
    let codes = ap code_of (sym e ∙ ap object z ∙ e') in omega (arith, codes)

-- The timers behind the first are as they were after its round.
module _ (k : Kernel) (c : Contents) (free : ℕ → List ℕ) (t p : ℕ) (r : Pcb)
    (us vs woken old timers : List ℕ) (at : c waiting_list ≡ us ++ p ∷ vs)
    (parts : c ready_list ≡ woken ++ old) (first : c timer_list ≡ t ∷ timers)
    (block : k.object p ≡ pcb r) (k' : Kernel)
    (woke : Woke k c free t p r (us ++ vs) woken old timers k') where
  same_object : (a : ℕ) → a ≢ p → k'.object a ≡ k.object a
  same_object a ne = ap (λ (f : ℕ → Object). f a) woke.object ∙ rw (==-false a p ne) refl

  Elapsed-round :
      (ts ps : List ℕ)
      → Elapsed k c ts ps
      → has p ps ≡ false
      → Elapsed k' (woken_lists c t p (us ++ vs) woken old timers) ts ps
  Elapsed-round [] [] e out = tt
  Elapsed-round [] (q ∷ qs) e out = e
  Elapsed-round (u ∷ us') [] e out = e
  Elapsed-round (u ∷ us') (q ∷ qs) (e, own, distinct, rest) out =
      let ne : e.item.pcb ≢ p = λ z. ground (arith, out, own, z) in
      (
        record {
          item = e.item;
          process = e.process;
          timer = same_object u (timer_ne_pcb k.object u p e.item r e.timer block) ∙ e.timer;
          elapsed = rw woke.same_time e.elapsed;
          waits =
              has-remove p e.item.pcb us vs (subst (λ z. has e.item.pcb z ≡ true) at e.waits) ne;
          block = same_object e.item.pcb ne ∙ e.block;
        },
        own,
        distinct,
        Elapsed-round us' qs rest (ground (arith, out)),
      )

  Later-round : (ts : List ℕ) → Later k ts → Later k' ts
  Later-round [] l = tt
  Later-round (u ∷ us') (item, timer, later) = (
    item,
    same_object u (timer_ne_pcb k.object u p item r timer block) ∙ timer,
    rw woke.same_time later,
  )

  p_waits : has p (c waiting_list) ≡ true
  p_waits = has_middle p us vs _ at

  loose-round : (a : ℕ) → IsFree c a → IsFree (woken_lists c t p (us ++ vs) woken old timers) a
  loose-round a out h = ground (
    arith,
    out h,
    ne_of_has p a (c waiting_list) p_waits (out waiting_list),
    subst (λ z. has a z ≡ false) at (out waiting_list),
    subst (λ z. has a z ≡ false) parts (out ready_list),
    subst (λ z. has a z ≡ false) first (out timer_list),
    has-append a us (p ∷ vs),
    has-append a us vs,
    has-append a woken old,
    has-append a woken (p ∷ old),
  )

  -- One round, and then the others.
  AllWoke-round :
      (ps rest : List ℕ) (k2 : Kernel) (c2 : Contents) (free2 free1 : ℕ → List ℕ)
      → has p ps ≡ false
      → free1 pcb_pool ≡ free pcb_pool
      → AllWoke k'
          (woken_lists c t p (us ++ vs) woken old timers)
          free1
          ps
          rest
          (woken ++ p ∷ [])
          old
          k2
          c2
          free2
      → AllWoke k c free (p ∷ ps) rest woken old k2 c2 free2
  AllWoke-round ps rest k2 c2 free2 free1 distinct same_pcbs a = record {
    kernel = a.kernel;
    timers = a.timers;
    ready_processes = a.ready_processes ∙ append_assoc woken (p ∷ []) (ps ++ old);
    asleep = λ q h out.
        a.asleep q
          (has-remove p q us vs (subst (λ z. has q z ≡ true) at h) (λ z. ground (arith, out, z)))
          (ground (arith, out));
    other_lists = λ h ne ne' ne''.
        a.other_lists h ne ne' ne''
        ∙ rw (==-false h timer_list ne, ==-false h ready_list ne', ==-false h waiting_list ne'')
            refl;
    loose = λ q out. a.loose q (loose-round q out);
    free_pcbs = a.free_pcbs ∙ same_pcbs;
    awake = λ q h. elim (Bool-cases (q == p)) [
      | inl same ↦
          subst
            (λ z.
              (s : Pcb) × (k.object z ≡ pcb s)
              × (k2.object z ≡ pcb (record s { status = ready; timer = 0 })))
            (sym ((==_iff q p).0 same))
            (
              r,
              block,
              a.other_objects p distinct
                  ∙ ap (λ (f : ℕ → Object). f p) woke.object
                  ∙ rw (==_self p) refl,
            )
      | inr other ↦
          let (s, old_block, new_block) = a.awake q (has-cons_other q p ps h other) in
          (s, sym (same_object q (==-ne q p other)) ∙ old_block, new_block)
    ];
    other_objects = λ q out.
        a.other_objects q (ground (arith, out)) ∙ same_object q (λ z. ground (arith, out, z));
    same_running = a.same_running ∙ woke.same_running;
    same_time = a.same_time ∙ woke.same_time;
  }

-- The loop wakes all of these processes, in the order of their timers, and ends.
pub wake-AllWoke :
    (ts ps : List ℕ) (rounds : ℕ) (rest woken old : List ℕ) {k : Kernel} {c : Contents}
    {free : ℕ → List ℕ}
    → IsKernel k c free
    → length ts < rounds
    → c timer_list ≡ ts ++ rest
    → c ready_list ≡ woken ++ old
    → Elapsed k c ts ps
    → Later k rest
    → (k' : Kernel) × (c' : Contents) × (free' : ℕ → List ℕ) × (wake rounds (last_or 0 woken) k
        ≡ ok (tt, k'))
      × AllWoke k c free ps rest woken old k' c' free'
unfolding wake
wake-AllWoke ts ps zero rest woken old w enough timers parts e l = absurd (omega arith)
wake-AllWoke [] [] (suc rounds) [] woken old {k} {c} {free} w enough timers parts e l = (
  k,
  c,
  free,
  rw (timer_list_current-nil w timer_list k.disastr_os_time timers) refl,
  no_one k c free [] woken old w timers parts,
)
wake-AllWoke [] [] (suc rounds) (t ∷ rest) woken old {k} {c} {free} w enough timers parts e
      (item, timer, later) =
    (
      k,
      c,
      free,
      rw (timer_list_current-later w timer_list t rest timers item timer k.disastr_os_time later)
          refl,
      no_one k c free (t ∷ rest) woken old w timers parts,
    )
wake-AllWoke [] (p ∷ ps) (suc rounds) rest woken old w enough timers parts e l =
    absurd (true-ne-false e)
wake-AllWoke (t ∷ ts) [] (suc rounds) rest woken old w enough timers parts e l =
    absurd (true-ne-false e)
wake-AllWoke (t ∷ ts) (p ∷ ps) (suc rounds) rest woken old {k} {c} {free} w enough timers parts
      (e, own, distinct, es) l =
    let q : ℕ = e.item.pcb in
    let (us, vs, at) = has-split q (c waiting_list) e.waits in
    let (k1, run1, woke) = wake-Woke w t (ts ++ rest) timers e woken old parts rounds us vs at in
    let out : has q ps ≡ false = rw own distinct in
    let (k2, c2, free2, run2, all) =
      wake-AllWoke ts ps rounds rest (woken ++ q ∷ []) old woke.kernel (omega (arith, enough)) refl
        (sym (append_assoc woken (q ∷ []) old))
        (Elapsed-round k c free t q e.process us vs woken old (ts ++ rest) at parts timers e.block
          k1 woke ts ps es out)
        (Later-round k c free t q e.process us vs woken old (ts ++ rest) at parts timers e.block k1
          woke rest l) in
    (
      k2,
      c2,
      free2,
      run1 ∙ (ap (λ z. wake rounds z k1) (sym (last_or-append 0 woken (q ∷ []))) ∙ run2),
      subst (λ z. AllWoke k c free (z ∷ ps) rest woken old k2 c2 free2) own
          (AllWoke-round k c free t q e.process us vs woken old (ts ++ rest) at parts timers e.block
            k1 woke ps rest k2 c2 free2 _ out refl all),
    )
