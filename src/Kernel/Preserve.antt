-- ===== src/Kernel/Preserve.antt =====
-- The single steps of the calls keep a kernel in order.
use disastr_os_message_queue.Base.{
  ℕ, ◌/◌, ◌%◌, ◌<◌, ◌≡◌, refl, sym, ◌∙◌, true, false, List, ◌∷◌, ◌++◌, arith, ◌==◌, update, ok, has,
  has-cons_other, ==_iff, Bool-cases, inl, inr, subst, true-ne-false,
}
use disastr_os_message_queue.LinkedList.{ListMemory}
use disastr_os_message_queue.LinkedList.Memory.{
  Contents, IsFree, detach-IsFree, detach_still-IsFree,
}
use disastr_os_message_queue.PoolAllocator.{PoolAllocator, success}
use disastr_os_message_queue.Kernel.Object.{Object, Pcb, pcb}
use disastr_os_message_queue.Kernel.State.{Kernel, block_at}
use disastr_os_message_queue.Kernel.Cmd.{detach, release_block}
use disastr_os_message_queue.Kernel.Laws.{Runs, with_running, detach-ok, release_block-ok}
use disastr_os_message_queue.Kernel.Invariant.{
  IsKernel, code_of, code_at, inside_at, store-typed, store-inside, pools-update, inside-update,
}

module _ {k : Kernel} {c : Contents} {free : ℕ → List ℕ} (w : IsKernel k c free) where
  -- An object is replaced by another of its type.
  pub store-IsKernel :
      (p : ℕ) (o o' : Object)
      → k.object p ≡ o
      → 0 < code_of o
      → code_of o' ≡ code_of o
      → IsKernel (record k { object = update k.object p o' }) c free
  store-IsKernel p o o' e some_code same = record {
    lists = w.lists;
    pools = w.pools;
    fresh = w.fresh;
    typed = store-typed k.object p o' w.typed (same ∙ sym (code_at w p o e some_code));
    inside = store-inside k.object k.pool p o' w.inside (inside_at w p o e some_code);
  }

  pub with_running-IsKernel : (r r' : Pcb) → Runs k r → IsKernel (with_running k r') c free
  with_running-IsKernel r r' run =
      store-IsKernel k.running (pcb r) (pcb r') run.control_block (omega arith) refl

  -- An item is taken out of its list.
  pub detach-IsKernel :
      (h it : ℕ) (xs ys : List ℕ)
      → c h ≡ xs ++ it ∷ ys
      → (l : ListMemory) × (detach h it k ≡ ok (it, record k { lists = l }))
        × IsKernel (record k { lists = l }) (update c h (xs ++ ys)) free
        × IsFree (update c h (xs ++ ys)) it
  detach-IsKernel h it xs ys e =
      let (l, run, rep) = detach-ok h it xs ys k c w.lists e in
      (
        l,
        run,
        record {
          lists = rep;
          pools = w.pools;
          fresh = λ code j low f.
              detach_still-IsFree h it xs ys w.lists e (block_at code j) (w.fresh code j low f);
          typed = w.typed;
          inside = w.inside;
        },
        detach-IsFree h it xs ys w.lists e,
      )

  -- A block that stands in a list is not free.
  pub held-taken :
      (code h p : ℕ)
      → code < 16
      → p % 16 ≡ code
      → has p (c h) ≡ true
      → has (p / 16) (free code) ≡ false
  held-taken code h p low own i = elim (Bool-cases (has (p / 16) (free code))) [
    | inl f ↦
        let block : block_at code (p / 16) ≡ p = omega (arith, own) in
        absurd (
          true-ne-false
            (sym i ∙ subst (λ z. has z (c h) ≡ false) block (w.fresh code (p / 16) low f h)))
    | inr f ↦ f
  ]

  -- A block that stands in no list goes back to its pool.
  module _ (code p : ℕ) (o : Object) (e : k.object p ≡ o) (own : code_of o ≡ code)
      (known : 0 < code) (low : code < 15) (loose : IsFree c p)
      (taken : has (p / 16) (free code) ≡ false) where
    own_code : p % 16 ≡ code
    own_code = code_at w p o e (omega (arith, own)) ∙ own

    fresh-cons :
        (d j : ℕ)
        → d < 16
        → has j (update free code (p / 16 ∷ free code) d) ≡ true
        → IsFree c (block_at d j)
    fresh-cons d j small h = elim (Bool-cases (d == code)) [
      | inl same ↦ elim (Bool-cases (j == p / 16)) [
        | inl index ↦
            subst (IsFree c)
              (sym (omega (arith, own_code, (==_iff d code).0 same, (==_iff j (p / 16)).0 index)))
              loose
        | inr index ↦ w.fresh d j small (
            rw ((==_iff d code).0 same)
              (has-cons_other j (p / 16) (free code) (rw same at h) index))
      ]
      | inr other ↦ w.fresh d j small (rw other at h)
    ]

    pub release_block-IsKernel :
        (a : PoolAllocator) × (release_block code p k
          ≡ ok (success, record k { pool = update k.pool code a }))
        × IsKernel
            (record k { pool = update k.pool code a })
            c
            (update free code (p / 16 ∷ free code))
    release_block-IsKernel =
        let lt : p / 16 < (k.pool code).size_max =
          subst (λ d. p / 16 < (k.pool d).size_max) own_code
            (inside_at w p o e (omega (arith, own))) in
        let (a, run, pool, same) =
          release_block-ok code (p / 16) (free code) k (omega arith) (w.pools code known low) lt
            taken in
        let block : block_at code (p / 16) ≡ p = omega (arith, own_code) in
        (
          a,
          rw block at run,
          record {
            lists = w.lists;
            pools = pools-update k.pool free code a _ w.pools pool;
            fresh = fresh-cons;
            typed = w.typed;
            inside = inside-update k.object k.pool code a same w.inside;
          },
        )
