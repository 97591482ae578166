-- ===== src/Resources/Destroy.antt =====
-- disastrOS_destroy_resource.c
pub mod Call
use disastr_os_message_queue.Base.{◌==◌, if◌then◌else◌, not, pos, eqb_ℤ}
use disastr_os_message_queue.Kernel.Constants.{dsos_eresourceclose, dsos_eresourceinuse}
use disastr_os_message_queue.Kernel.State.{resources_list, target_descriptors}
use disastr_os_message_queue.Kernel.Cmd.{
  Cmd, ◌>>=◌, ◌>>◌, assert, head_of, detach, set_retvalue, int_arg,
}
use disastr_os_message_queue.Resources.Blocks.{resource_list_by_id, resource_free}

-- `internal_destroyResource`
unfoldable pub internal_destroy_resource : Cmd (Unit {0})
internal_destroy_resource = do
  id ← int_arg 0
  res ← resource_list_by_id resources_list id
  if res == 0 then set_retvalue dsos_eresourceclose else do
    entries ← head_of (target_descriptors res)
    if not (eqb_ℤ entries.size (pos 0)) then set_retvalue dsos_eresourceinuse else do
      found ← detach resources_list res
      assert (not (found == 0))
      resource_free found
      set_retvalue (pos 0)
