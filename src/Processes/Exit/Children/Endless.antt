-- ===== src/Processes/Exit/Children/Endless.antt =====
-- The exit of the process `init` itself.
use disastr_os_message_queue.Base.{
  ℕ, zero, suc, ◌≡◌, refl, sym, ◌∙◌, true, List, [], ◌∷◌, ◌++◌, arith, out_of_fuel, has, has-append,
  ==_self, subst,
}
use disastr_os_message_queue.LinkedList.Memory.{Contents}
use disastr_os_message_queue.Kernel.State.{Kernel, children}
use disastr_os_message_queue.Kernel.Invariant.{IsKernel}
use disastr_os_message_queue.Processes.Exit.{reparent}
use disastr_os_message_queue.Processes.Exit.Children.{
  AreChildren, AreChildren-update, reparent-round,
}

-- A list with an item at its end has a first item.
first_of : (xs : List ℕ) (e : ℕ) → (z : ℕ) × (zs : List ℕ) × (xs ++ e ∷ [] ≡ z ∷ zs)
first_of [] e = (e, [], refl)
first_of (x ∷ xs) e = (x, xs ++ e ∷ [], refl)

-- In a kernel in order, when `init` itself exits and has a child, and all its children are entries
-- of processes: the loop of `internal_exit` over the children does not end in any number of
-- rounds.
pub reparent-endless :
    (rounds init e : ℕ) (rest : List ℕ) {k : Kernel} {c : Contents} {free : ℕ → List ℕ}
    → IsKernel k c free
    → c (children init) ≡ e ∷ rest
    → AreChildren k (e ∷ rest)
    → reparent rounds init init k ≡ out_of_fuel
unfolding reparent
reparent-endless zero init e rest w first entries = refl
reparent-endless (suc rounds) init e rest {k} {c} w first entries =
    let (q, r, child) = entries e (ground arith) in
    let (k1, run1, w1, objects, same) = reparent-round w init init e q r rest first child rounds in
    let (z, zs, turned) = first_of rest e in
    let turned_has : (a : ℕ) → has a (z ∷ zs) ≡ true → has a (e ∷ rest) ≡ true = λ a h.
      ground (arith, subst (λ l. has a l ≡ true) (sym turned) h, has-append a rest (e ∷ [])) in
    run1
    ∙ reparent-endless rounds init z zs w1 (rw (==_self (children init)) turned) (λ a h.
      AreChildren-update k k1 q r _ (e ∷ rest) child.process objects entries a (turned_has a h))
