-- ===== src/Processes/Exit/Children.antt =====
-- The children of a process that exits go to the process `init`: one round of the loop.
pub mod All
pub mod Signals
pub mod Endless
use disastr_os_message_queue.Base.{
  ℕ, suc, true, ◌==◌, ap, ◌∙◌, Bool-cases, inl, inr, ◌/◌, ◌%◌, ◌≡◌, refl, sym, ◌≢◌, false, List, [],
  ◌∷◌, ◌++◌, arith, update, ok, has, ==-false, subst,
}
use disastr_os_message_queue.LinkedList.Memory.{Contents, has-ne_zero}
use disastr_os_message_queue.Kernel.Constants.{dsos_sighup}
use disastr_os_message_queue.Kernel.Object.{Object, Pcb, pcb, pcb_ptr}
use disastr_os_message_queue.Kernel.State.{Kernel, children}
use disastr_os_message_queue.Kernel.Cmd.{as_pcb, as_pcb_ptr}
use disastr_os_message_queue.Kernel.Laws.{load-ok}
use disastr_os_message_queue.Kernel.Invariant.{IsKernel, code_of, first_ne_zero}
use disastr_os_message_queue.Kernel.Preserve.{detach-IsKernel, store-IsKernel, held-taken}
use disastr_os_message_queue.Kernel.Take.{insert_last-IsKernel}
use disastr_os_message_queue.Processes.Exit.{with_signal, send_signal, reparent}

-- The entry `e` of a list of children leads to the process `q`, with the control block `r`.
pub record IsChild (k : Kernel) (e q : ℕ) (r : Pcb) : Type 0 where
  pub entry : k.object e ≡ pcb_ptr (record { pcb = q })
  pub some_process : q ≢ 0
  pub process : k.object q ≡ pcb r

-- The lists once the first child of `self` went to `init`.
abbrev pub handed : Contents → (self init e : ℕ) → List ℕ → Contents
handed c self init e rest =
    let d : Contents = update c (children self) rest in
    update d (children init) (d (children init) ++ e ∷ [])

module _ {k : Kernel} {c : Contents} {free : ℕ → List ℕ} (w : IsKernel k c free) (self init : ℕ)
    (e q : ℕ) (r : Pcb) (rest : List ℕ) (first : c (children self) ≡ e ∷ rest)
    (child : IsChild k e q r) where
  entry_ne_zero : e ≢ 0
  entry_ne_zero = first_ne_zero w (children self) e rest first

  pub reparent-round :
      (rounds : ℕ)
      → (k' : Kernel) × (reparent (suc rounds) self init k ≡ reparent rounds self init k')
        × IsKernel k' (handed c self init e rest) free
        × (k'.object ≡ update k.object q (pcb (with_signal dsos_sighup r)))
        × (k'.running ≡ k.running)
  unfolding reparent send_signal
  reparent-round rounds =
      let (l1, run1, w1, loose1) = detach-IsKernel w (children self) e [] rest first in
      let k1 : Kernel = record k { lists = l1 } in
      let (l2, run2, w2) =
        insert_last-IsKernel w1 e entry_ne_zero loose1
          (held-taken w (e % 16) (children self) e (omega arith) refl (rw first (ground arith)))
          (children init) in
      let k2 : Kernel = record k1 { lists = l2 } in
      (
        record k2 { object = update k.object q (pcb (with_signal dsos_sighup r)) },
        rw ((w.lists.lists (children self)).first) (
            rw first (
              rw (==-false e 0 entry_ne_zero) (
                rw run1 (
                  rw (==-false e 0 entry_ne_zero) (
                    rw run2 (
                      rw
                        (load-ok as_pcb_ptr e k2 (record { pcb = q }) entry_ne_zero
                          (rw child.entry refl))
                        (rw (load-ok as_pcb q k2 r child.some_process (rw child.process refl))
                          refl))))))),
        store-IsKernel w2 q (pcb r) (pcb (with_signal dsos_sighup r)) child.process (omega arith)
            refl,
        refl,
        refl,
      )

-- No child is left.
pub reparent-nil :
    {k : Kernel} {c : Contents} {free : ℕ → List ℕ} (w : IsKernel k c free) (self init rounds : ℕ)
    → c (children self) ≡ []
    → reparent (suc rounds) self init k ≡ ok (tt, k)
unfolding reparent
reparent-nil w self init rounds none = rw ((w.lists.lists (children self)).first, none) refl

-- Every item of the list is the entry of a process.
abbrev pub AreChildren : Kernel → List ℕ → Type 0
AreChildren k xs = (e : ℕ) → has e xs ≡ true → (q : ℕ) × (r : Pcb) × IsChild k e q r

-- Writing the control block of a process leaves them entries of processes.
pub AreChildren-update :
    (k k' : Kernel) (q : ℕ) (r r' : Pcb) (xs : List ℕ)
    → k.object q ≡ pcb r
    → k'.object ≡ update k.object q (pcb r')
    → AreChildren k xs
    → AreChildren k' xs
AreChildren-update k k' q r r' xs block objects children e h =
    let (p, s, child) = children e h in
    let at : (a : ℕ) → k'.object a ≡ update k.object q (pcb r') a =
      λ a. ap (λ (f : ℕ → Object). f a) objects in
    let apart : e ≢ q = λ z.
      let codes = ap code_of (sym child.entry ∙ ap k.object z ∙ block) in omega (arith, codes) in
    let entry : k'.object e ≡ pcb_ptr (record { pcb = p }) =
      at e ∙ rw (==-false e q apart) child.entry in
    elim (Bool-cases (p == q)) [
      | inl same ↦ (
        p,
        r',
        record { entry = entry; some_process = child.some_process; process = at p ∙ rw same refl },
      )
      | inr other ↦ (
        p,
        s,
        record {
          entry = entry;
          some_process = child.some_process;
          process = at p ∙ rw other child.process;
        },
      )
    ]
