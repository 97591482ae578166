-- ===== src/MessageQueues/Read/Lost.antt =====
-- A message that does not fit into the reader's buffer.
use disastr_os_message_queue.Base.{
  ℕ, suc, ◌+◌, ◌-◌, ◌/◌, ◌%◌, ◌<◌, ◌≡◌, refl, ap, ◌∙◌, ◌≢◌, true, false, List, [], ◌∷◌, arith,
  update, ℤ, pos, pos_part, ltb_ℤ, eqb_ℤ, ok, has, has-cons_self, ==-false,
}
use disastr_os_message_queue.LinkedList.{ListMemory}
use disastr_os_message_queue.LinkedList.Memory.{Contents, IsFree}
use disastr_os_message_queue.Kernel.Object.{Pcb, MessageQueue, Message, message}
use disastr_os_message_queue.Kernel.State.{Kernel, queues, messages, messages_pool}
use disastr_os_message_queue.Kernel.Cmd.{as_message_queue, as_message}
use disastr_os_message_queue.Kernel.Laws.{Runs, with_running, load-ok, set_retvalue-ok}
use disastr_os_message_queue.Kernel.Invariant.{IsKernel, code_at}
use disastr_os_message_queue.Kernel.Preserve.{detach-IsKernel, held-taken, with_running-IsKernel}
use disastr_os_message_queue.MessageQueues.View.{
  IsQueue, level_queue, level_queue-ne, queue_list_by_priority-ok,
}
use disastr_os_message_queue.MessageQueues.Read.{read_levels, read_queue}
use disastr_os_message_queue.MessageQueues.Read.Levels.{
  IsEmptyLevel, read_levels-skip, take_first-cons, pos-next,
}

-- The kernel after a read that has lost the message `m`: it stands in no list, its block is not
-- free, and it is still counted.
pub record Lost (k : Kernel) (c : Contents) (free : ℕ → List ℕ) (self : Pcb) (m : ℕ) (k' : Kernel)
    : Type 0 where
  pub kernel : IsKernel k' c free
  pub loose : IsFree c m
  pub taken : has (m / 16) (free messages_pool) ≡ false
  pub objects : k'.object ≡ (with_running k (record self { syscall_retvalue = pos 0 })).object
  pub chars : k'.chars ≡ k.chars
  pub ints : k'.ints ≡ k.ints

module _ {k : Kernel} {c : Contents} {free : ℕ → List ℕ} (w : IsKernel k c free) {self : Pcb}
    (run : Runs k self) {mq : ℕ} {r : MessageQueue} (q : IsQueue k c mq r) (i m : ℕ) (ms : List ℕ)
    (msg : Message) (found : level_queue k c mq (pos i) ≢ 0)
    (content : c (messages (level_queue k c mq (pos i))) ≡ m ∷ ms)
    (is_m : k.object m ≡ message msg) where
  without : Contents
  without = update c (messages (level_queue k c mq (pos i))) ms

  same_queues : without (queues mq) ≡ c (queues mq)
  unfolding without
  same_queues =
      rw (==-false (queues mq) (messages (level_queue k c mq (pos i))) (λ e. omega arith)) refl

  module _ (l : ListMemory) where
    IsQueue-without : IsQueue (record k { lists = l }) without mq r
    IsQueue-without = record {
      some_mq = q.some_mq;
      object = q.object;
      short = rw same_queues q.short;
      typed = λ a h. q.typed a (rw same_queues at h);
    }

    IsEmptyLevel-without :
        (j : ℕ) → i < j → IsEmptyLevel k c mq j → IsEmptyLevel (record k { lists = l }) without mq j
    unfolding without
    IsEmptyLevel-without j above e =
        let apart : level_queue k c mq (pos j) ≢ level_queue k c mq (pos i) =
          level_queue-ne k c mq (pos j) (pos i) e.some_queue found
            (λ z. omega (arith, ap pos_part z)) in
        record {
          some_queue = rw same_queues e.some_queue;
          nothing =
              rw
                (
                  same_queues,
                  ==-false (messages (level_queue k c mq (pos j)))
                      (messages (level_queue k c mq (pos i))) (λ z. apart (omega arith)),
                )
                e.nothing;
        }

  m_code : m % 16 ≡ messages_pool
  m_code = code_at w m (message msg) is_m (omega arith)

  -- The round over the level detaches the message and goes on.
  read_levels-lose :
      (n buf : ℕ) (buf_size : ℤ) (priority : ℕ)
      → ltb_ℤ buf_size msg.text_length ≡ true
      → (l : ListMemory) × (read_levels (suc n) mq (pos i) buf buf_size priority k
          ≡ read_levels n mq (pos (i + 1)) buf buf_size priority (record k { lists = l }))
        × IsKernel (record k { lists = l }) without free
        × IsFree without m
  unfolding read_levels without
  read_levels-lose n buf buf_size priority long =
      let (l, out, w', loose) =
        detach-IsKernel w (messages (level_queue k c mq (pos i))) m [] ms content in
      let some_m : m ≢ 0 = λ e. omega (arith, m_code) in
      (
        l,
        rw
            (
              queue_list_by_priority-ok k c mq r (pos i) w.lists q,
              ==-false (level_queue k c mq (pos i)) 0 found,
            )
            (rw (take_first-cons k c (level_queue k c mq (pos i)) m ms w.lists content) (
              rw out (
                rw (==-false m 0 some_m) (
                  rw (load-ok as_message m (record k { lists = l }) msg some_m (rw is_m refl)) (
                    rw long (
                      ap (λ z. read_levels n mq z buf buf_size priority (record k { lists = l }))
                        (pos-next i))))))),
        w',
        loose,
      )

  -- In a kernel in order, with a message counted, where only the level `i` below the last one has
  -- messages, the other levels below the last are empty, and the first message `m` of the level
  -- `i` is longer than the buffer: the part of `internal_mqRead` past the checks of the descriptor
  -- returns 0, and takes `m` out of its level, so that it stands in no list while its block is not
  -- free and the count is unchanged; no character and no priority is written, and the kernel stays
  -- in order.
  pub read_queue-Lost :
      (buf : ℕ) (buf_size : ℤ) (priority : ℕ)
      → eqb_ℤ r.num_messages (pos 0) ≡ false
      → i < pos_part r.priority
      → ((j : ℕ) → j < pos_part r.priority → j ≢ i → IsEmptyLevel k c mq j)
      → ltb_ℤ buf_size msg.text_length ≡ true
      → (k' : Kernel) × (read_queue mq buf buf_size priority k ≡ ok (tt, k'))
        × Lost k (update c (messages (level_queue k c mq (pos i))) ms) free self m k'
  unfolding read_queue without read_levels
  read_queue-Lost buf buf_size priority some below empty long =
      let n : ℕ = pos_part r.priority - i - 1 in
      let (l, round, w', loose) = read_levels-lose n buf buf_size priority long in
      let k1 : Kernel = record k { lists = l } in
      let run1 : Runs k1 self = record {
        some_pcb = run.some_pcb;
        control_block = run.control_block;
      } in
      (
        with_running k1 (record self { syscall_retvalue = pos 0 }),
        rw (load-ok as_message_queue mq k r q.some_mq (rw q.object refl)) (
            rw some (
              ap (λ a. read_levels a mq (pos 0) buf buf_size priority k) (rounds n refl)
              ∙ read_levels-skip w q buf buf_size priority i (suc n) 0
                  (λ j p t. empty j (omega arith) (λ e. omega arith))
              ∙ ap (λ a. read_levels (suc n) mq (pos a) buf buf_size priority k) (zero-plus i)
              ∙ round
              ∙ ap (λ a. read_levels a mq (pos (i + 1)) buf buf_size priority k1) (plus-zero n)
              ∙ read_levels-skip w' (IsQueue-without l) buf buf_size priority n 0 (i + 1) (λ j p t.
                IsEmptyLevel-without l j (omega arith) (empty j (omega arith) (λ e. omega arith)))
              ∙ set_retvalue-ok k1 self run1 (pos 0))),
        record {
          kernel = with_running-IsKernel w' self (record self { syscall_retvalue = pos 0 }) run1;
          loose = loose;
          taken =
              held-taken w messages_pool (messages (level_queue k c mq (pos i))) m (omega arith)
                m_code (rw content (has-cons_self m ms));
          objects = refl;
          chars = refl;
          ints = refl;
        },
      )
    where
      rounds : (n : ℕ) → n ≡ pos_part r.priority - i - 1 → pos_part r.priority ≡ i + suc n
      rounds n e = omega arith

      zero-plus : (i : ℕ) → 0 + i ≡ i
      zero-plus i = omega arith

      plus-zero : (n : ℕ) → n ≡ n + 0
      plus-zero n = omega arith
