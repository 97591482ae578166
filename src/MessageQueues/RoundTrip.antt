-- ===== src/MessageQueues/RoundTrip.antt =====
-- A read after a write: what one process writes another reads, except from the last level.
use disastr_os_message_queue.Base.{
  ℕ, ◌+◌, ◌%◌, ◌≤◌, ◌<◌, ◌≡◌, refl, ap, ◌∙◌, ◌≢◌, true, false, List, [], ◌∷◌, ◌++◌, arith, update,
  ℤ, pos, ◌+ℤ◌, ◌-ℤ◌, eqb_ℤ, ltb_ℤ, pos_part, ok, has, ==-false, ==_self, ◌||◌,
}
use disastr_os_message_queue.LinkedList.Walk.{find_first-congr}
use disastr_os_message_queue.LinkedList.Memory.{Contents}
use disastr_os_message_queue.Kernel.Constants.{max_num_messages_per_mq}
use disastr_os_message_queue.Kernel.Object.{
  Object, Pcb, MessageQueue, message_queue, message, pcb, queue,
}
use disastr_os_message_queue.Kernel.State.{Kernel, block_at, messages_pool, queues, messages}
use disastr_os_message_queue.Kernel.Cmd.{as_queue, as_message_queue}
use disastr_os_message_queue.Kernel.Laws.{Runs, with_running, load-ok}
use disastr_os_message_queue.Kernel.Invariant.{IsKernel, code_at, queue_of}
use disastr_os_message_queue.MessageQueues.View.{level_queue-ne, IsQueue, level_queue}
use disastr_os_message_queue.MessageQueues.Write.{write_queue, write_level, level_for}
use disastr_os_message_queue.MessageQueues.Write.Append.{Written, write_level-Written}
use disastr_os_message_queue.MessageQueues.Read.{read_queue}
use disastr_os_message_queue.MessageQueues.Read.Levels.{
  IsEmptyLevel, read_queue-deliver, read_queue-nothing,
}

as_queue-eq : (o : Object) → as_queue o ≡ ok (queue_of o) → o ≡ queue (queue_of o)
as_queue-eq (queue r) e = refl
as_queue-eq _ e = cc

-- A write leaves the priority queues of its message queue as they were.
module _ {k : Kernel} {c : Contents} {free : ℕ → List ℕ} (w : IsKernel k c free) {self : Pcb}
    (run : Runs k self) {mq : ℕ} {r : MessageQueue} (q : IsQueue k c mq r) {i : ℕ} {is : List ℕ}
    {buf : ℕ} {buf_size level : ℤ} {k' : Kernel}
    (written : Written k c free self mq r i is buf buf_size level k') where
  abbrev c' : Contents
  c' =
      update c (messages (level_queue k c mq level))
        (c (messages (level_queue k c mq level)) ++ block_at messages_pool i ∷ [])

  same_queues : c' (queues mq) ≡ c (queues mq)
  same_queues =
      rw (==-false (queues mq) (messages (level_queue k c mq level)) (λ e. omega arith)) refl

  same_queue : (a : ℕ) → has a (c (queues mq)) ≡ true → k'.object a ≡ k.object a
  same_queue a h =
      let code : a % 16 ≡ 13 =
        code_at w a (queue _) (as_queue-eq (k.object a) (q.typed a h)) (omega arith) in
      let mq_code : mq % 16 ≡ 10 = code_at w mq (message_queue r) q.object (omega arith) in
      let running_code : k.running % 16 ≡ 1 =
        code_at w k.running (pcb self) run.control_block (omega arith) in
      ap (λ (f : ℕ → Object). f a) written.objects
      ∙ rw
          (
            ==-false a k.running (λ e. omega (arith, code, running_code)),
            ==-false a mq (λ e. omega (arith, code, mq_code)),
            ==-false a (block_at messages_pool i) (λ e. omega (arith, code)),
          )
          refl

  pub level_queue-Written : (j : ℤ) → level_queue k' c' mq j ≡ level_queue k c mq j
  level_queue-Written j = rw same_queues (
      find_first-congr _ _ (c (queues mq))
        (λ a h. ap (λ o. eqb_ℤ (queue_of o).priority j) (same_queue a h)))

  pub IsQueue-Written : IsQueue k' c' mq (record r { num_messages = r.num_messages +ℤ pos 1 })
  IsQueue-Written = record {
    some_mq = q.some_mq;
    object =
        ap (λ (f : ℕ → Object). f mq) written.objects
        ∙ rw (==-false mq k.running not_running, ==_self mq) refl;
    short = rw same_queues q.short;
    typed = λ a h. rw (same_queue a (rw same_queues at h)) (q.typed a (rw same_queues at h));
  }
    where
      not_running : mq ≢ k.running
      not_running e = omega (
        arith,
        code_at w mq (message_queue r) q.object (omega arith),
        code_at w k.running (pcb self) run.control_block (omega arith),
      )

  message-Written :
      k'.object (block_at messages_pool i) ≡ message (record { text_length = buf_size; text = buf })
  message-Written =
      ap (λ (f : ℕ → Object). f (block_at messages_pool i)) written.objects
      ∙ rw
          (
            ==-false (block_at messages_pool i) k.running (λ e.
                omega (arith, code_at w k.running (pcb self) run.control_block (omega arith))),
            ==-false (block_at messages_pool i) mq
                (λ e. omega (arith, code_at w mq (message_queue r) q.object (omega arith))),
            ==_self (block_at messages_pool i),
          )
          refl

  pub Runs-Written : Runs k' (record self { syscall_retvalue = level })
  Runs-Written = record {
    some_pcb = rw written.same_running run.some_pcb;
    control_block = rw (written.same_running, written.objects, ==_self k.running) refl;
  }

  -- A level whose queue is another one is as empty as before.
  pub IsEmptyLevel-Written :
      (j : ℕ)
      → level_queue k c mq (pos j) ≢ level_queue k c mq level
      → IsEmptyLevel k c mq j
      → IsEmptyLevel k' c' mq j
  IsEmptyLevel-Written j apart e = record {
    some_queue = rw (level_queue-Written (pos j)) e.some_queue;
    nothing =
        rw
          (
            level_queue-Written (pos j),
            ==-false (messages (level_queue k c mq (pos j))) (messages (level_queue k c mq level))
                (λ z. apart (omega arith)),
          )
          e.nothing;
  }

-- The tests of a write on a message queue with `n` messages and `top` levels.
room-ltb : (n : ℕ) → n < 128 → ltb_ℤ (pos max_num_messages_per_mq) (pos n +ℤ pos 1) ≡ false
room-ltb n h = ground arith

level_for-valid : (top i : ℕ) → i < top → level_for (pos top) (pos i) ≡ pos i
level_for-valid top i h = ground arith

counted-ne_zero : (n : ℕ) → eqb_ℤ (pos n +ℤ pos 1) (pos 0) ≡ false
counted-ne_zero n = ground arith

module _ {k : Kernel} {c : Contents} {free : ℕ → List ℕ} (w : IsKernel k c free) {self : Pcb}
    (run : Runs k self) {mq : ℕ} {r : MessageQueue} (q : IsQueue k c mq r) (i : ℕ) (is : List ℕ)
    (first : free messages_pool ≡ i ∷ is) (n top : ℕ) (count : r.num_messages ≡ pos n)
    (room : n < 128) (levels : r.priority ≡ pos top) (buf : ℕ) (buf_size : ℤ) (buf' : ℕ)
    (buf_size' : ℤ) (priority' : ℕ) (some_buf' : buf' ≢ 0) (some_priority' : priority' ≢ 0) where
  write_queue-level :
      (priority : ℤ)
      → write_queue mq buf buf_size priority k
        ≡ write_level mq buf buf_size (level_for r.priority priority) k
  unfolding write_queue
  write_queue-level priority =
      rw (load-ok as_message_queue mq k r q.some_mq (rw q.object refl))
        (rw count (rw (room-ltb n room) refl))

  -- In a kernel in order, with a free message block, fewer than 128 messages in the message queue,
  -- a non-null buffer and the level `j` below the number of levels, with a queue at each of the
  -- levels 0 to `j` and no message in them: a write of `buf_size` characters with priority `j`
  -- succeeds, and a read with non-null pointers into a buffer of at least that size then returns
  -- `buf_size`, stores `j` as the priority, and copies the first character of the text, and that
  -- one only.
  pub read_queue-write_queue :
      (j : ℕ)
      → j < top
      → buf ≢ 0
      → ltb_ℤ buf_size' buf_size ≡ false
      → ((d : ℕ) → d ≤ j → IsEmptyLevel k c mq d)
      → (k1 : Kernel) × (k2 : Kernel) × (write_queue mq buf buf_size (pos j) k ≡ ok (tt, k1))
        × (read_queue mq buf' buf_size' priority' k1 ≡ ok (tt, k2))
        × (k2.object k.running ≡ pcb (record self { syscall_retvalue = buf_size }))
        × (k2.chars ≡ update k.chars buf' (k.chars buf))
        × (k2.ints ≡ update k.ints priority' (pos j))
  read_queue-write_queue j low some_buf fits empty =
      let (k1, run1, post1) =
        write_level-Written w run q i is first buf buf_size (pos j)
          (empty j (omega arith)).some_queue in
      let h : ℕ = messages (level_queue k c mq (pos j)) in
      let same = level_queue-Written w run q post1 (pos j) in
      let (l, k2, run2, post2) =
        read_queue-deliver post1.kernel (Runs-Written w run q post1) (IsQueue-Written w run q post1)
          buf' buf_size' priority' some_buf' some_priority' j (block_at messages_pool i) []
          (record { text_length = buf_size; text = buf }) (rw count (counted-ne_zero n))
          (rw levels low)
          (λ d below.
            IsEmptyLevel-Written w run q post1 d
              (level_queue-ne k c mq (pos d) (pos j) (empty d (omega arith)).some_queue
                (empty j (omega arith)).some_queue (λ e. omega (arith, ap pos_part e)))
              (empty d (omega arith)))
          (rw same (empty j (omega arith)).some_queue)
          (rw (same, ==_self h, (empty j (omega arith)).nothing) refl)
          (message-Written w run q post1) some_buf fits in
      (
        k1,
        k2,
        write_queue-level (pos j)
            ∙ ap (λ z. write_level mq buf buf_size z k)
                (ap (λ z. level_for z (pos j)) levels ∙ level_for-valid top j low)
            ∙ run1,
        run2,
        ap (λ (f : ℕ → Object). f k.running) post2.objects
            ∙ rw (post1.same_running, ==_self k.running) refl,
        post2.chars ∙ rw post1.same_chars refl,
        post2.ints ∙ rw post1.same_ints refl,
      )

  -- In a kernel in order, with a free message block, fewer than 128 messages in the message queue,
  -- and a queue at each level but no message below the last: a write with a priority below 0 or
  -- above the last valid one succeeds and is counted, and a read with non-null pointers that
  -- follows returns 0, writes no character and takes no message out of any list.
  pub read_queue-write_queue_last :
      (priority : ℤ)
      → ltb_ℤ priority (pos 0) || ltb_ℤ (pos top -ℤ pos 1) priority ≡ true
      → level_queue k c mq (pos top) ≢ 0
      → ((d : ℕ) → d < top → IsEmptyLevel k c mq d)
      → (k1 : Kernel) × (k2 : Kernel) × (write_queue mq buf buf_size priority k ≡ ok (tt, k1))
        × (read_queue mq buf' buf_size' priority' k1 ≡ ok (tt, k2))
        × (k1.object mq ≡ message_queue (record r { num_messages = pos (n + 1) }))
        × (k2.object k.running ≡ pcb (record self { syscall_retvalue = pos 0 }))
        × (k2.chars ≡ k.chars)
        × (k2.lists ≡ k1.lists)
  read_queue-write_queue_last priority invalid some_last empty =
      let (k1, run1, post1) =
        write_level-Written w run q i is first buf buf_size (pos top) some_last in
      let run' = Runs-Written w run q post1 in
      let q' = IsQueue-Written w run q post1 in
      (
        k1,
        with_running k1 (record self { syscall_retvalue = pos 0 }),
        write_queue-level priority
            ∙ ap (λ z. write_level mq buf buf_size z k)
                (ap (λ z. level_for z priority) levels ∙ rw invalid refl)
            ∙ run1,
        read_queue-nothing post1.kernel run' q' buf' buf_size' priority' some_buf' some_priority'
            (λ d below.
              IsEmptyLevel-Written w run q post1 d
                (level_queue-ne k c mq (pos d) (pos top) (empty d (rw levels at below)).some_queue
                  some_last (λ e. omega (arith, ap pos_part e, rw levels at below)))
                (empty d (rw levels at below))),
        q'.object ∙ rw count (ap (λ z. message_queue (record r { num_messages = z })) (next n)),
        rw (post1.same_running, ==_self k.running) refl,
        post1.same_chars,
        refl,
      )
    where
      next : (m : ℕ) → pos m +ℤ pos 1 ≡ pos (m + 1)
      next m = ground arith
