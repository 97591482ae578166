-- ===== src/Resources/Close.antt =====
-- disastrOS_close_resource.c
use disastr_os_message_queue.Base.{ℕ, ◌==◌, if◌then◌else◌, not, pos}
use disastr_os_message_queue.Kernel.Constants.{dsos_eresourceclose}
use disastr_os_message_queue.Kernel.State.{descriptors, target_descriptors}
use disastr_os_message_queue.Kernel.Cmd.{
  Cmd, ◌>>=◌, ◌>>◌, gets, assert, failure, detach, load, as_descriptor, set_retvalue, int_arg,
}
use disastr_os_message_queue.Resources.Blocks.{
  descriptor_list_by_fd, descriptor_free, descriptor_ptr_free,
}

-- Once the descriptor is found. `&res->descriptors` is formed from NULL without a fault, but a
-- resource at NULL has no list of its own.
unfoldable pub close_descriptor : ℕ → ℕ → Cmd (Unit {0})
close_descriptor self found = do
  des ← detach (descriptors self) found
  assert (not (des == 0))
  d ← load as_descriptor des
  if d.target == 0 then failure else do
    ptr ← detach (target_descriptors d.target) d.ptr
    assert (not (ptr == 0))
    descriptor_free des
    descriptor_ptr_free ptr
    set_retvalue (pos 0)

-- `internal_closeResource`
unfoldable pub internal_close_resource : Cmd (Unit {0})
internal_close_resource = do
  fd ← int_arg 0
  self ← gets (λ k. k.running)
  des ← descriptor_list_by_fd (descriptors self) fd
  if des == 0 then set_retvalue dsos_eresourceclose else close_descriptor self des
