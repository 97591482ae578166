-- ===== src/MessageQueues.antt =====
-- disastrOS_mq.c, disastrOS_mqdescriptor.c and the five system calls on message queues.
pub mod Blocks
pub mod View
pub mod Open
pub mod Close
pub mod Unlink
pub mod Read
pub mod Write
pub mod RoundTrip
pub mod OpenClose
