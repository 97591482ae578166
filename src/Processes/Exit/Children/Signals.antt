-- ===== src/Processes/Exit/Children/Signals.antt =====
-- What the signals to the children of a process leave of the objects.
use disastr_os_message_queue.Base.{
  ℕ, ◌≡◌, refl, sym, ap, ◌∙◌, ◌≢◌, true, List, [], ◌∷◌, arith, has, ==-false, subst, ◌==◌, ==_iff,
  Bool-cases, inl, inr,
}
use disastr_os_message_queue.Kernel.Object.{Object, Pcb, pcb}
use disastr_os_message_queue.Processes.Exit.Children.All.{child_of, signalled, hung_up, all_hung_up}

child_of-signalled : (o : Object) → child_of (signalled o) ≡ child_of o
child_of-signalled (pcb r) = refl
child_of-signalled o = refl

child_of-hung_up :
    (object : ℕ → Object) (e a : ℕ) → child_of (hung_up object e a) ≡ child_of (object a)
child_of-hung_up object e a = elim (Bool-cases (a == child_of (object e))) [
  | inl same ↦ rw same (
      child_of-signalled (object (child_of (object e)))
      ∙ ap (λ b. child_of (object b)) (sym ((==_iff a (child_of (object e))).0 same)))
  | inr other ↦ rw other refl
]

-- An object that is the process of none of the entries is as it was.
pub all_hung_up_others :
    (object : ℕ → Object) (es : List ℕ) (a : ℕ)
    → ((e : ℕ) → has e es ≡ true → child_of (object e) ≢ a)
    → all_hung_up object es a ≡ object a
all_hung_up_others object [] a none = refl
all_hung_up_others object (e ∷ es) a none =
    all_hung_up_others (hung_up object e) es a
      (λ d h q. none d (ground arith) (sym (child_of-hung_up object e d) ∙ q))
    ∙ rw (==-false a (child_of (object e)) (λ q. none e (ground arith) (sym q))) refl

-- A process that is, if at all, only signalled.
abbrev pub Signalled : Pcb → Object → Type 0
Signalled r o = (n : ℕ) × (o ≡ pcb (record r { signals = n }))

abbrev pub signals_of : Object → ℕ
signals_of (pcb r) = r.signals
signals_of _ = 0

pub signalled-pcb : (r : Pcb) (o : Object) → Signalled r o → Signalled r (signalled o)
signalled-pcb r o (n, e) = (_, ap signalled e)

pub all_hung_up-pcb :
    (object : ℕ → Object) (es : List ℕ) (a : ℕ) (r : Pcb)
    → Signalled r (object a)
    → Signalled r (all_hung_up object es a)
all_hung_up-pcb object [] a r s = s
all_hung_up-pcb object (e ∷ es) a r s =
    all_hung_up-pcb (hung_up object e) es a r (elim (Bool-cases (a == child_of (object e))) [
      | inl same ↦
          let z : a ≡ child_of (object e) = (==_iff a (child_of (object e))).0 same in
          subst (Signalled r) (rw same (ap (λ b. signalled (object b)) z))
            (signalled-pcb r (object a) s)
      | inr other ↦ rw other s
    ])
