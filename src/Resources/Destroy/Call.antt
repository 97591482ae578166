-- ===== src/Resources/Destroy/Call.antt =====
-- The whole call `internal_destroyResource`.
use disastr_os_message_queue.Base.{
  ℕ, suc, ◌/◌, ◌%◌, ◌<◌, ◌≡◌, refl, sym, ap, ◌∙◌, ◌≢◌, true, false, List, [], ◌∷◌, ◌++◌, arith,
  update, ℤ, pos, to_int, eqb_ℤ, ok, has, length, ==-false, subst, update_other,
}
use disastr_os_message_queue.LinkedList.Walk.{find_first, find_first-has}
use disastr_os_message_queue.LinkedList.Memory.{Contents}
use disastr_os_message_queue.Kernel.Constants.{dsos_eresourceclose, dsos_eresourceinuse}
use disastr_os_message_queue.Kernel.Object.{Object, Pcb, Resource, pcb, resource}
use disastr_os_message_queue.Kernel.State.{
  Kernel, resources_list, resources_pool, target_descriptors, list_fuel,
}
use disastr_os_message_queue.Kernel.Cmd.{as_resource}
use disastr_os_message_queue.Kernel.Laws.{
  Runs, with_running, set_retvalue-ok, int_arg-ok, search_list-find_first,
}
use disastr_os_message_queue.Kernel.Invariant.{IsKernel, code_at}
use disastr_os_message_queue.Kernel.Preserve.{
  detach-IsKernel, held-taken, release_block-IsKernel, with_running-IsKernel,
}
use disastr_os_message_queue.Resources.Blocks.{resource_list_by_id, resource_free}
use disastr_os_message_queue.Resources.Destroy.{internal_destroy_resource}

abbrev pub resource_of : Object → Resource
resource_of (resource r) = r
resource_of _ = record { id = pos 0; type = pos 0 }

-- The list of resources is in order.
pub record IsCatalogue (k : Kernel) (c : Contents) : Type 0 where
  pub short : length (c resources_list) < list_fuel
  pub typed :
      (a : ℕ) → has a (c resources_list) ≡ true → k.object a ≡ resource (resource_of (k.object a))

-- The resource with the number `id`, or NULL.
abbrev pub resource_by_id : Kernel → Contents → ℤ → ℕ
resource_by_id k c id = find_first (λ a. eqb_ℤ (resource_of (k.object a)).id id) (c resources_list)

module _ {k : Kernel} {c : Contents} {free : ℕ → List ℕ} (w : IsKernel k c free) {self : Pcb}
    (run : Runs k self) (catalogue : IsCatalogue k c) (id : ℤ)
    (arg : to_int (self.syscall_args 0) ≡ id) where
  search : resource_list_by_id resources_list id k ≡ ok (resource_by_id k c id, k)
  unfolding resource_list_by_id
  search =
      search_list-find_first as_resource (λ r. eqb_ℤ r.id id) resources_list k c
        (λ a. resource_of (k.object a)) w.lists catalogue.short
        (λ a h. ap as_resource (catalogue.typed a h))

  pub internal_destroy_resource-missing :
      resource_by_id k c id ≡ 0
      → internal_destroy_resource k
        ≡ ok (tt, with_running k (record self { syscall_retvalue = dsos_eresourceclose }))
  unfolding internal_destroy_resource
  internal_destroy_resource-missing none =
      rw (int_arg-ok k self run 0)
        (rw arg (rw search (rw none (set_retvalue-ok k self run dsos_eresourceclose))))

  module _ (res : ℕ) (found : resource_by_id k c id ≡ res) (some_res : res ≢ 0) where
    res_in : has res (c resources_list) ≡ true
    res_in =
        subst (λ a. has a (c resources_list) ≡ true) found
          (find_first-has (λ a. eqb_ℤ (resource_of (k.object a)).id id) (c resources_list)
            (λ e. some_res (sym found ∙ e))).0

    searched : resource_list_by_id resources_list id k ≡ ok (res, k)
    searched = search ∙ ap (λ a. ok (a, k)) found

    pub internal_destroy_resource-in_use :
        (d : ℕ) (ds : List ℕ)
        → c (target_descriptors res) ≡ d ∷ ds
        → internal_destroy_resource k
          ≡ ok (tt, with_running k (record self { syscall_retvalue = dsos_eresourceinuse }))
    unfolding internal_destroy_resource
    internal_destroy_resource-in_use d ds users =
        let some_users : eqb_ℤ (k.lists.head (target_descriptors res)).size (pos 0) ≡ false =
          rw ((w.lists.lists (target_descriptors res)).size, users)
            (rw (==-false (suc (length ds)) 0 (λ e. omega arith)) refl) in
        rw (int_arg-ok k self run 0) (
          rw arg (
            rw searched (
              rw (==-false res 0 some_res)
                (rw some_users (set_retvalue-ok k self run dsos_eresourceinuse)))))

    -- In a kernel in order, with a list of resources that holds resources and is shorter than the
    -- rounds of the search, and a resource of the number that no descriptor uses:
    -- `internal_destroyResource` ends, takes the resource out of the list, frees its block,
    -- returns 0, changes no other object, and leaves the kernel in order.
    pub internal_destroy_resource-Destroyed :
        (us vs : List ℕ)
        → c resources_list ≡ us ++ res ∷ vs
        → c (target_descriptors res) ≡ []
        → (k' : Kernel) × (internal_destroy_resource k ≡ ok (tt, k'))
          × IsKernel k'
              (update c resources_list (us ++ vs))
              (update free resources_pool (res / 16 ∷ free resources_pool))
          × (k'.object ≡ update k.object k.running (pcb (record self { syscall_retvalue = pos 0 })))
          × (k'.running ≡ k.running)
    unfolding internal_destroy_resource resource_free
    internal_destroy_resource-Destroyed us vs parts unused =
        let block = catalogue.typed res res_in in
        let code : res % 16 ≡ 4 = code_at w res _ block (omega arith) in
        let (l1, run1, w1, loose1) = detach-IsKernel w resources_list res us vs parts in
        let unused1 : update c resources_list (us ++ vs) (target_descriptors res) ≡ [] =
          update_other c resources_list _ (target_descriptors res) (λ e. omega (arith, code))
          ∙ unused in
        let (a2, run2, w2) =
          release_block-IsKernel w1 resources_pool res _ block refl (omega arith) (omega arith)
            loose1 (held-taken w resources_pool resources_list res (omega arith) code res_in) in
        let k2 : Kernel = record k { lists = l1; pool = update k.pool resources_pool a2 } in
        let run' : Runs k2 self = record {
          some_pcb = run.some_pcb;
          control_block = run.control_block;
        } in
        let list = w.lists.lists (target_descriptors res) in
        let list1 = w1.lists.lists (target_descriptors res) in
        (
          with_running k2 (record self { syscall_retvalue = pos 0 }),
          rw (int_arg-ok k self run 0) (
              rw arg (
                rw searched (
                  rw (==-false res 0 some_res) (
                    rw (list.size, unused)
                      (rw run1 (
                        rw (==-false res 0 some_res) (
                          rw (list1.first, list1.last, unused1)
                            (rw run2 (set_retvalue-ok k2 self run' (pos 0)))))))))),
          with_running-IsKernel w2 self _ run',
          refl,
          refl,
        )
