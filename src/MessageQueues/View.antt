-- ===== src/MessageQueues/View.antt =====
-- A message queue and its levels, as the calls find them.
use disastr_os_message_queue.Base.{
  sym, ap, ◌∙◌, eqb_ℤ_iff, ℕ, ◌<◌, ◌≡◌, ◌≢◌, Bool, true, ◌||◌, ℤ, pos, eqb_ℤ, ltb_ℤ, ok, length,
  has,
}
use disastr_os_message_queue.LinkedList.Walk.{find_first, find_first-has}
use disastr_os_message_queue.LinkedList.Memory.{Contents, Represents}
use disastr_os_message_queue.Kernel.Constants.{max_num_mqdescriptors_per_process}
use disastr_os_message_queue.Kernel.Object.{MessageQueue, message_queue}
use disastr_os_message_queue.Kernel.State.{
  Kernel, list_fuel, queues, mq_descriptors, message_queues_list,
}
use disastr_os_message_queue.Kernel.Cmd.{load, as_queue, as_mq_descriptor, as_message_queue}
use disastr_os_message_queue.Kernel.Laws.{search_list-find_first, load-ok}
use disastr_os_message_queue.Kernel.Invariant.{queue_of, descriptor_of, message_queue_of}
use disastr_os_message_queue.MessageQueues.Blocks.{
  message_queue_list_by_id, queue_list_by_priority, mq_descriptor_list_by_fd,
}

-- A message queue with its priority queues in order.
pub record IsQueue (k : Kernel) (c : Contents) (mq : ℕ) (r : MessageQueue) : Type 0 where
  pub some_mq : mq ≢ 0
  pub object : k.object mq ≡ message_queue r
  pub short : length (c (queues mq)) < list_fuel
  pub typed :
      (a : ℕ) → has a (c (queues mq)) ≡ true → as_queue (k.object a) ≡ ok (queue_of (k.object a))

-- The priority queue of a level, or NULL.
abbrev pub level_queue : Kernel → Contents → ℕ → ℤ → ℕ
level_queue k c mq i = find_first (λ a. eqb_ℤ (queue_of (k.object a)).priority i) (c (queues mq))

pub queue_list_by_priority-ok :
    (k : Kernel) (c : Contents) (mq : ℕ) (r : MessageQueue) (i : ℤ)
    → Represents k.lists c
    → IsQueue k c mq r
    → queue_list_by_priority (queues mq) i k ≡ ok (level_queue k c mq i, k)
unfolding queue_list_by_priority
queue_list_by_priority-ok k c mq r i rep q =
    search_list-find_first as_queue (λ r. eqb_ℤ r.priority i) (queues mq) k c
      (λ a. queue_of (k.object a)) rep q.short q.typed

-- The descriptor with the number `fd` in the table of the running process, or NULL.
abbrev pub descriptor_by_fd : Kernel → Contents → ℤ → ℕ
descriptor_by_fd k c fd =
    find_first (λ a. eqb_ℤ (descriptor_of (k.object a)).fd fd) (c (mq_descriptors k.running))

-- The descriptor table of the running process is in order.
pub record IsTable (k : Kernel) (c : Contents) : Type 0 where
  pub short : length (c (mq_descriptors k.running)) < list_fuel
  pub typed :
      (a : ℕ)
      → has a (c (mq_descriptors k.running)) ≡ true
      → as_mq_descriptor (k.object a) ≡ ok (descriptor_of (k.object a))

module _ (k : Kernel) (c : Contents) (fd : ℤ) (rep : Represents k.lists c)
    (table : IsTable k c) where
  pub mq_descriptor_list_by_fd-ok :
      mq_descriptor_list_by_fd (mq_descriptors k.running) fd k ≡ ok (descriptor_by_fd k c fd, k)
  unfolding mq_descriptor_list_by_fd
  mq_descriptor_list_by_fd-ok =
      search_list-find_first as_mq_descriptor (λ d. eqb_ℤ d.fd fd) (mq_descriptors k.running) k c
        (λ a. descriptor_of (k.object a)) rep table.short table.typed

  -- A descriptor that is found is read as one.
  pub load-descriptor :
      descriptor_by_fd k c fd ≢ 0
      → load as_mq_descriptor (descriptor_by_fd k c fd) k
        ≡ ok (descriptor_of (k.object (descriptor_by_fd k c fd)), k)
  load-descriptor found = load-ok as_mq_descriptor (descriptor_by_fd k c fd) k _ found (
      table.typed _
        (find_first-has (λ a. eqb_ℤ (descriptor_of (k.object a)).fd fd)
          (c (mq_descriptors k.running)) found).0)

-- `fd < 0 || fd > MAX_NUM_MQDESCRIPTORS_PER_PROCESS`
abbrev pub bad_fd : ℤ → Bool
bad_fd fd = ltb_ℤ fd (pos 0) || ltb_ℤ (pos max_num_mqdescriptors_per_process) fd

-- The message queue with the number `id`, or NULL.
abbrev pub queue_by_id : Kernel → Contents → ℤ → ℕ
queue_by_id k c id =
    find_first (λ a. eqb_ℤ (message_queue_of (k.object a)).id id) (c message_queues_list)

-- The list of message queues is in order.
pub record IsRegistry (k : Kernel) (c : Contents) : Type 0 where
  pub short : length (c message_queues_list) < list_fuel
  pub typed :
      (a : ℕ)
      → has a (c message_queues_list) ≡ true
      → as_message_queue (k.object a) ≡ ok (message_queue_of (k.object a))

module _ (k : Kernel) (c : Contents) (id : ℤ) (rep : Represents k.lists c)
    (registry : IsRegistry k c) where
  pub message_queue_list_by_id-ok :
      message_queue_list_by_id message_queues_list id k ≡ ok (queue_by_id k c id, k)
  unfolding message_queue_list_by_id
  message_queue_list_by_id-ok =
      search_list-find_first as_message_queue (λ r. eqb_ℤ r.id id) message_queues_list k c
        (λ a. message_queue_of (k.object a)) rep registry.short registry.typed

  -- A message queue that is found is read as one.
  pub load-message_queue :
      queue_by_id k c id ≢ 0
      → load as_message_queue (queue_by_id k c id) k
        ≡ ok (message_queue_of (k.object (queue_by_id k c id)), k)
  load-message_queue found = load-ok as_message_queue (queue_by_id k c id) k _ found (
      registry.typed _
        (find_first-has (λ a. eqb_ℤ (message_queue_of (k.object a)).id id) (c message_queues_list)
          found).0)

-- Different levels have different queues.
pub level_queue-ne :
    (k : Kernel) (c : Contents) (mq : ℕ) (i j : ℤ)
    → level_queue k c mq i ≢ 0
    → level_queue k c mq j ≢ 0
    → i ≢ j
    → level_queue k c mq i ≢ level_queue k c mq j
level_queue-ne k c mq i j some_i some_j ne e =
    let at : (z : ℤ)
        → level_queue k c mq z ≢ 0
        → (queue_of (k.object (level_queue k c mq z))).priority ≡ z =
      λ z some_z.
        (eqb_ℤ_iff _ z).0
          (find_first-has (λ a. eqb_ℤ (queue_of (k.object a)).priority z) (c (queues mq))
            some_z).1 in
    ne (sym (at i some_i) ∙ ap (λ a. (queue_of (k.object a)).priority) e ∙ at j some_j)
