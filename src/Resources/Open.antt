-- ===== src/Resources/Open.antt =====
-- disastrOS_open_resource.c
use disastr_os_message_queue.Base.{ℕ, ◌==◌, if◌then◌else◌, not, ◌&&◌, ℤ, pos, eqb_ℤ, ◌+ℤ◌, has_bit}
use disastr_os_message_queue.Kernel.Constants.{
  dsos_eresourcecreate, dsos_eresourceopen, dsos_eresourcenoexcl, dsos_eresourcenofd,
  dsos_create_bit, dsos_excl_bit,
}
use disastr_os_message_queue.Kernel.Object.{descriptor}
use disastr_os_message_queue.Kernel.State.{resources_list, descriptors, target_descriptors}
use disastr_os_message_queue.Kernel.Cmd.{
  Cmd, ◌>>=◌, ◌>>◌, gets, head_of, insert_last, load, store, as_resource, as_descriptor,
  running_pcb, update_running, set_retvalue, int_arg,
}
use disastr_os_message_queue.Resources.Blocks.{
  resource_alloc, resource_list_by_id, descriptor_alloc, descriptor_ptr_alloc,
}

-- The last part: a descriptor for the process and an entry for the resource. The result of
-- `DescriptorPtr_alloc` is not checked: with NULL `List_insert` faults.
unfoldable pub open_descriptor : ℕ → Cmd (Unit {0})
open_descriptor res = do
  self ← gets (λ k. k.running)
  r ← running_pcb
  des ← descriptor_alloc r.last_fd res self
  if des == 0 then set_retvalue dsos_eresourcenofd else do
    update_running (λ p. record p { last_fd = p.last_fd +ℤ pos 1 })
    ptr ← descriptor_ptr_alloc des
    insert_last (descriptors self) des
    d ← load as_descriptor des
    store des (descriptor (record d { ptr = ptr }))
    insert_last (target_descriptors res) ptr
    d' ← load as_descriptor des
    set_retvalue d'.fd

-- Once the resource is found or created.
unfoldable pub check_and_open : ℕ → ℤ → ℤ → Cmd (Unit {0})
check_and_open res type open_mode = if res == 0 then set_retvalue dsos_eresourceopen else do
  r ← load as_resource res
  if not (eqb_ℤ r.type type) then set_retvalue dsos_eresourceopen else do
    entries ← head_of (target_descriptors res)
    if has_bit dsos_excl_bit open_mode && not (eqb_ℤ entries.size (pos 0))
        then set_retvalue dsos_eresourcenoexcl
        else open_descriptor res

-- `internal_openResource`. The result of `Resource_alloc` is not checked: with NULL `List_insert`
-- faults.
unfoldable pub internal_open_resource : Cmd (Unit {0})
internal_open_resource = do
  id ← int_arg 0
  type ← int_arg 1
  open_mode ← int_arg 2
  res ← resource_list_by_id resources_list id
  if has_bit dsos_create_bit open_mode
      then if not (res == 0) then set_retvalue dsos_eresourcecreate else (do
        made ← resource_alloc id type
        insert_last resources_list made
        check_and_open made type open_mode)
      else check_and_open res type open_mode
