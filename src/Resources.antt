-- ===== src/Resources.antt =====
-- Resources (devices and files): disastrOS_resource.c, disastrOS_descriptor.c and the three system calls
-- on them.
pub mod Blocks
pub mod Open
pub mod Close
pub mod Destroy
