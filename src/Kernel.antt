-- ===== src/Kernel.antt =====
-- The state of the kernel and the commands over it.
pub mod Constants
pub mod Object
pub mod State
pub mod Cmd
pub mod Laws
pub mod Invariant
pub mod Preserve
pub mod Take
