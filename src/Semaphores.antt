-- ===== src/Semaphores.antt =====
-- disastrOS_semaphore.c, disastrOS_semdescriptor.c and the four system calls on semaphores.
pub mod Blocks
pub mod Open
pub mod Close
pub mod Wait
pub mod Post
