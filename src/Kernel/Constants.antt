-- ===== src/Kernel/Constants.antt =====
-- disastrOS_constants.h
use disastr_os_message_queue.Base.{ℕ, ℤ, pos, negsuc}

abbrev pub max_num_processes : ℕ
max_num_processes = 1024

abbrev pub max_num_resources : ℕ
max_num_resources = 1024

abbrev pub max_num_semaphores : ℕ
max_num_semaphores = 1024

abbrev pub max_num_mqs : ℕ
max_num_mqs = 16

abbrev pub max_num_queues : ℕ
max_num_queues = 64

abbrev pub max_num_messages : ℕ
max_num_messages = 128

abbrev pub max_num_messages_per_mq : ℕ
max_num_messages_per_mq = 128

abbrev pub max_message_length : ℕ
max_message_length = 32

abbrev pub max_num_descriptors_per_process : ℕ
max_num_descriptors_per_process = 32

abbrev pub max_num_semdescriptors_per_process : ℕ
max_num_semdescriptors_per_process = 32

abbrev pub max_num_mqdescriptors_per_process : ℕ
max_num_mqdescriptors_per_process = 16

-- Signals, as bit numbers: `DSOS_SIGCHLD` is bit 0 and `DSOS_SIGHUP` is bit 1.
abbrev pub dsos_sigchld : ℕ
dsos_sigchld = 0x1

abbrev pub dsos_sighup : ℕ
dsos_sighup = 0x2

-- The error codes.
abbrev pub dsos_esyscall_not_implemented : ℤ
dsos_esyscall_not_implemented = negsuc 1

abbrev pub dsos_esyscall_out_of_range : ℤ
dsos_esyscall_out_of_range = negsuc 2

abbrev pub dsos_ewait : ℤ
dsos_ewait = negsuc 4

abbrev pub dsos_espawn : ℤ
dsos_espawn = negsuc 5

abbrev pub dsos_esleep : ℤ
dsos_esleep = negsuc 6

abbrev pub dsos_eresourcecreate : ℤ
dsos_eresourcecreate = negsuc 7

abbrev pub dsos_eresourceopen : ℤ
dsos_eresourceopen = negsuc 8

abbrev pub dsos_eresourcenoexcl : ℤ
dsos_eresourcenoexcl = negsuc 9

abbrev pub dsos_eresourcenofd : ℤ
dsos_eresourcenofd = negsuc 10

abbrev pub dsos_eresourceclose : ℤ
dsos_eresourceclose = negsuc 11

abbrev pub dsos_eresourceinuse : ℤ
dsos_eresourceinuse = negsuc 12

abbrev pub dsos_esemaphoreopen : ℤ
dsos_esemaphoreopen = negsuc 13

abbrev pub dsos_esemaphoreclose : ℤ
dsos_esemaphoreclose = negsuc 14

abbrev pub dsos_esemaphorepost : ℤ
dsos_esemaphorepost = negsuc 15

abbrev pub dsos_esemaphorewait : ℤ
dsos_esemaphorewait = negsuc 16

abbrev pub dsos_emqopen : ℤ
dsos_emqopen = negsuc 17

abbrev pub dsos_emqclose : ℤ
dsos_emqclose = negsuc 18

abbrev pub dsos_emqread : ℤ
dsos_emqread = negsuc 19

abbrev pub dsos_emqwrite : ℤ
dsos_emqwrite = negsuc 20

abbrev pub dsos_emqunlink : ℤ
dsos_emqunlink = negsuc 21

-- The numbers of the calls, and the size of the tables.
abbrev pub dsos_max_syscalls : ℕ
dsos_max_syscalls = 32

abbrev pub dsos_call_preempt : ℤ
dsos_call_preempt = pos 1

abbrev pub dsos_call_fork : ℤ
dsos_call_fork = pos 2

abbrev pub dsos_call_wait : ℤ
dsos_call_wait = pos 3

abbrev pub dsos_call_exit : ℤ
dsos_call_exit = pos 4

abbrev pub dsos_call_spawn : ℤ
dsos_call_spawn = pos 5

abbrev pub dsos_call_sleep : ℤ
dsos_call_sleep = pos 6

abbrev pub dsos_call_open_resource : ℤ
dsos_call_open_resource = pos 7

abbrev pub dsos_call_close_resource : ℤ
dsos_call_close_resource = pos 8

abbrev pub dsos_call_destroy_resource : ℤ
dsos_call_destroy_resource = pos 9

abbrev pub dsos_call_shutdown : ℤ
dsos_call_shutdown = pos 10

abbrev pub dsos_call_semopen : ℤ
dsos_call_semopen = pos 11

abbrev pub dsos_call_semclose : ℤ
dsos_call_semclose = pos 12

abbrev pub dsos_call_semwait : ℤ
dsos_call_semwait = pos 13

abbrev pub dsos_call_sempost : ℤ
dsos_call_sempost = pos 14

abbrev pub dsos_call_mqopen : ℤ
dsos_call_mqopen = pos 15

abbrev pub dsos_call_mqclose : ℤ
dsos_call_mqclose = pos 16

abbrev pub dsos_call_mqread : ℤ
dsos_call_mqread = pos 17

abbrev pub dsos_call_mqwrite : ℤ
dsos_call_mqwrite = pos 18

abbrev pub dsos_call_mqunlink : ℤ
dsos_call_mqunlink = pos 19

-- The flags of the open calls, as bit numbers: `DSOS_CREATE` is 1 and `DSOS_EXCL` is 4.
abbrev pub dsos_create_bit : ℕ
dsos_create_bit = 0

abbrev pub dsos_excl_bit : ℕ
dsos_excl_bit = 2
