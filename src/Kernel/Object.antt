-- ===== src/Kernel/Object.antt =====
-- The objects in the pools: disastrOS_pcb.h, disastrOS_timer.h, disastrOS_resource.h,
-- disastrOS_descriptor.h, disastrOS_semaphore.h, disastrOS_semdescriptor.h, disastrOS_mq.h and
-- disastrOS_mqdescriptor.h.
--
-- A pointer is an address. The `ListItem` and the `ListHead`s of an object stand in the list memory,
-- the other fields here; the saved CPU state and the stack of a process are left out. What an address
-- holds is an `Object`, so that reading it as another type is a fault.
use disastr_os_message_queue.Base.{ℕ, ℤ}

pub data ProcessStatus : Type 0 where
  invalid created running ready waiting suspended zombie : ProcessStatus

pub record Pcb : Type 0 where
  pub pid : ℤ
  pub return_value : ℤ
  pub status : ProcessStatus
  pub signals : ℕ
  pub signals_mask : ℕ
  pub parent : ℕ
  pub timer : ℕ
  pub last_fd : ℤ
  pub last_sem_fd : ℤ
  pub last_mq_fd : ℤ
  pub syscall_num : ℤ
  pub syscall_args : ℕ → ℤ
  pub syscall_retvalue : ℤ

pub record PcbPtr : Type 0 where
  pub pcb : ℕ

pub record TimerItem : Type 0 where
  pub awakening_time : ℤ
  pub pcb : ℕ

pub record Resource : Type 0 where
  pub id : ℤ
  pub type : ℤ

-- `Descriptor`, `SemDescriptor` and `MQDescriptor`: the process, the object that it has open, the
-- file descriptor, and the entry in the object's list.
pub record Descriptor : Type 0 where
  pub pcb : ℕ
  pub target : ℕ
  pub fd : ℤ
  pub ptr : ℕ

-- `DescriptorPtr`, `SemDescriptorPtr` and `MQDescriptorPtr`.
pub record DescriptorPtr : Type 0 where
  pub descriptor : ℕ

pub record Semaphore : Type 0 where
  pub id : ℤ
  pub count : ℤ

pub record MessageQueue : Type 0 where
  pub id : ℤ
  pub priority : ℤ
  pub num_messages : ℤ

pub record Queue : Type 0 where
  pub priority : ℤ

-- `text` is an address of the user's memory.
pub record Message : Type 0 where
  pub text_length : ℤ
  pub text : ℕ

pub data Object : Type 0 where
  blank : Object
  pcb : Pcb → Object
  pcb_ptr : PcbPtr → Object
  timer_item : TimerItem → Object
  resource : Resource → Object
  descriptor : Descriptor → Object
  descriptor_ptr : DescriptorPtr → Object
  semaphore : Semaphore → Object
  sem_descriptor : Descriptor → Object
  sem_descriptor_ptr : DescriptorPtr → Object
  message_queue : MessageQueue → Object
  mq_descriptor : Descriptor → Object
  mq_descriptor_ptr : DescriptorPtr → Object
  queue : Queue → Object
  message : Message → Object
