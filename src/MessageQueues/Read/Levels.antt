-- ===== src/MessageQueues/Read/Levels.antt =====
-- The loop over the levels: it passes the empty ones and takes the first message of the first other.
use disastr_os_message_queue.Base.{
  ℕ, zero, suc, ◌+◌, ◌-◌, ◌%◌, ◌≤◌, ◌<◌, ◌≡◌, refl, ◌∙◌, ap, ◌≢◌, false, List, [], ◌∷◌, arith,
  update, ℤ, pos, ◌+ℤ◌, eqb_ℤ, ltb_ℤ, pos_part, ok, length, ==-false, has-cons_self, Bool-cases,
  inl, inr,
}
use disastr_os_message_queue.LinkedList.{ListMemory}
use disastr_os_message_queue.LinkedList.Memory.{Contents, Represents}
use disastr_os_message_queue.Kernel.Object.{Pcb, MessageQueue, Message, message}
use disastr_os_message_queue.Kernel.State.{Kernel, messages_pool, messages}
use disastr_os_message_queue.Kernel.Cmd.{detach, as_message, as_message_queue}
use disastr_os_message_queue.Kernel.Laws.{Runs, with_running, load-ok, set_retvalue-ok}
use disastr_os_message_queue.Kernel.Invariant.{IsKernel, code_at}
use disastr_os_message_queue.Kernel.Preserve.{detach-IsKernel, held-taken}
use disastr_os_message_queue.MessageQueues.View.{IsQueue, level_queue, queue_list_by_priority-ok}
use disastr_os_message_queue.MessageQueues.Read.{take_first, read_levels, read_queue}
use disastr_os_message_queue.MessageQueues.Read.Deliver.{Delivered, deliver-Delivered}

pub pos-next : (i : ℕ) → pos i +ℤ pos 1 ≡ pos (i + 1)
pos-next i = ground arith

-- A level that has a queue, and no message in it.
pub record IsEmptyLevel (k : Kernel) (c : Contents) (mq i : ℕ) : Type 0 where
  pub some_queue : level_queue k c mq (pos i) ≢ 0
  pub nothing : c (messages (level_queue k c mq (pos i))) ≡ []

take_first-nil :
    (k : Kernel) (c : Contents) (q : ℕ)
    → Represents k.lists c
    → c (messages q) ≡ []
    → take_first q k ≡ ok (0, k)
take_first-nil k c q rep e = rw ((rep.lists (messages q)).size, e) refl

pub take_first-cons :
    (k : Kernel) (c : Contents) (q m : ℕ) (ms : List ℕ)
    → Represents k.lists c
    → c (messages q) ≡ m ∷ ms
    → take_first q k ≡ detach (messages q) m k
take_first-cons k c q m ms rep e =
    rw ((rep.lists (messages q)).size, (rep.lists (messages q)).first, e)
      (rw (==-false (suc (length ms)) 0 (λ z. omega arith)) refl)

module _ {k : Kernel} {c : Contents} {free : ℕ → List ℕ} (w : IsKernel k c free) {mq : ℕ}
    {r : MessageQueue} (q : IsQueue k c mq r) (buf : ℕ) (buf_size : ℤ) (priority : ℕ) where
  -- One round over an empty level.
  read_levels-step :
      (n i : ℕ)
      → IsEmptyLevel k c mq i
      → read_levels (suc n) mq (pos i) buf buf_size priority k
        ≡ read_levels n mq (pos (i + 1)) buf buf_size priority k
  unfolding read_levels
  read_levels-step n i e =
      rw
        (
          queue_list_by_priority-ok k c mq r (pos i) w.lists q,
          ==-false (level_queue k c mq (pos i)) 0 e.some_queue,
        )
        (rw (take_first-nil k c (level_queue k c mq (pos i)) w.lists e.nothing)
          (ap (λ z. read_levels n mq z buf buf_size priority k) (pos-next i)))

  -- The empty levels from `i` on are passed and nothing changes.
  pub read_levels-skip :
      (d n i : ℕ)
      → ((j : ℕ) → i ≤ j → j < i + d → IsEmptyLevel k c mq j)
      → read_levels (d + n) mq (pos i) buf buf_size priority k
        ≡ read_levels n mq (pos (i + d)) buf buf_size priority k
  read_levels-skip zero n i empty =
      ap (λ a. read_levels a mq (pos i) buf buf_size priority k) (omega arith)
      ∙ ap (λ a. read_levels n mq (pos a) buf buf_size priority k) (omega arith)
  read_levels-skip (suc d) n i empty =
      ap (λ a. read_levels a mq (pos i) buf buf_size priority k) (omega arith)
      ∙ read_levels-step (d + n) i (empty i (omega arith) (omega arith))
      ∙ read_levels-skip d n (i + 1) (λ j p t. empty j (omega arith) (omega arith))
      ∙ ap (λ a. read_levels n mq (pos a) buf buf_size priority k) (omega arith)

module _ {k : Kernel} {c : Contents} {free : ℕ → List ℕ} (w : IsKernel k c free) {self : Pcb}
    (run : Runs k self) {mq : ℕ} {r : MessageQueue} (q : IsQueue k c mq r) (buf : ℕ) (buf_size : ℤ)
    (priority : ℕ) (some_buf : buf ≢ 0) (some_priority : priority ≢ 0) where
  -- One round over a level whose first message fits.
  read_levels-deliver :
      (n i m : ℕ) (ms : List ℕ) (msg : Message)
      → level_queue k c mq (pos i) ≢ 0
      → c (messages (level_queue k c mq (pos i))) ≡ m ∷ ms
      → k.object m ≡ message msg
      → msg.text ≢ 0
      → ltb_ℤ buf_size msg.text_length ≡ false
      → (l : ListMemory) × (k' : Kernel) × (read_levels (suc n) mq (pos i) buf buf_size priority k
          ≡ ok (tt, k'))
        × Delivered
            (record k { lists = l })
            (update c (messages (level_queue k c mq (pos i))) ms)
            free
            self
            mq
            r
            m
            msg
            (pos i)
            buf
            priority
            k'
  unfolding read_levels
  read_levels-deliver n i m ms msg found content is_m some_text enough =
      let h : ℕ = messages (level_queue k c mq (pos i)) in
      let (l, out, w', loose) = detach-IsKernel w h m [] ms content in
      let code : m % 16 ≡ messages_pool = code_at w m (message msg) is_m (omega arith) in
      let some_m : m ≢ 0 = λ e. omega arith in
      let (k', delivered, post) =
        deliver-Delivered w' (record { some_pcb = run.some_pcb; control_block = run.control_block })
          q.some_mq q.object is_m loose
          (held-taken w messages_pool h m (omega arith) code (rw content (has-cons_self m ms)))
          (pos i) buf priority some_buf some_priority some_text in
      (
        l,
        k',
        rw
            (
              queue_list_by_priority-ok k c mq r (pos i) w.lists q,
              ==-false (level_queue k c mq (pos i)) 0 found,
            )
            (rw (take_first-cons k c (level_queue k c mq (pos i)) m ms w.lists content) (
              rw out (
                rw (==-false m 0 some_m) (
                  rw (load-ok as_message m (record k { lists = l }) msg some_m (rw is_m refl))
                    (rw enough delivered))))),
        post,
      )

  -- A read of a message queue takes the oldest message of the first level that has one.
  pub read_queue-deliver :
      (i m : ℕ) (ms : List ℕ) (msg : Message)
      → eqb_ℤ r.num_messages (pos 0) ≡ false
      → i < pos_part r.priority
      → ((j : ℕ) → j < i → IsEmptyLevel k c mq j)
      → level_queue k c mq (pos i) ≢ 0
      → c (messages (level_queue k c mq (pos i))) ≡ m ∷ ms
      → k.object m ≡ message msg
      → msg.text ≢ 0
      → ltb_ℤ buf_size msg.text_length ≡ false
      → (l : ListMemory) × (k' : Kernel) × (read_queue mq buf buf_size priority k ≡ ok (tt, k'))
        × Delivered
            (record k { lists = l })
            (update c (messages (level_queue k c mq (pos i))) ms)
            free
            self
            mq
            r
            m
            msg
            (pos i)
            buf
            priority
            k'
  unfolding read_queue
  read_queue-deliver i m ms msg some_messages below empty found content is_m some_text enough =
      let n : ℕ = pos_part r.priority - i - 1 in
      let (l, k', round, post) =
        read_levels-deliver n i m ms msg found content is_m some_text enough in
      let zero-plus : 0 + i ≡ i = omega arith in
      let rounds : pos_part r.priority ≡ i + suc n = omega arith in
      (
        l,
        k',
        rw (load-ok as_message_queue mq k r q.some_mq (rw q.object refl)) (
            rw some_messages (
              ap (λ a. read_levels a mq (pos 0) buf buf_size priority k) rounds
              ∙ read_levels-skip w q buf buf_size priority i (suc n) 0
                  (λ j p t. empty j (omega arith))
              ∙ ap (λ a. read_levels (suc n) mq (pos a) buf buf_size priority k) zero-plus
              ∙ round)),
        post,
      )

  -- With no message below the last level a read returns 0 and takes nothing.
  pub read_queue-nothing :
      ((j : ℕ) → j < pos_part r.priority → IsEmptyLevel k c mq j)
      → read_queue mq buf buf_size priority k
        ≡ ok (tt, with_running k (record self { syscall_retvalue = pos 0 }))
  unfolding read_queue read_levels
  read_queue-nothing empty =
      rw (load-ok as_message_queue mq k r q.some_mq (rw q.object refl))
        (elim (Bool-cases (eqb_ℤ r.num_messages (pos 0))) [
          | inl none ↦ rw none (set_retvalue-ok k self run (pos 0))
          | inr some ↦ rw some (
              ap (λ a. read_levels a mq (pos 0) buf buf_size priority k) (omega arith)
              ∙ read_levels-skip w q buf buf_size priority (pos_part r.priority) 0 0
                  (λ j p t. empty j (omega arith))
              ∙ set_retvalue-ok k self run (pos 0))
        ])
