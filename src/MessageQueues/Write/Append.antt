-- ===== src/MessageQueues/Write/Append.antt =====
-- A write appends its message to the queue of its level.
use disastr_os_message_queue.Base.{
  ℕ, ◌/◌, ◌%◌, ◌<◌, ◌≡◌, refl, sym, ◌≢◌, List, [], ◌∷◌, ◌++◌, arith, update, ℤ, pos, ◌+ℤ◌, ok,
  ==-false,
}
use disastr_os_message_queue.LinkedList.Memory.{Contents, IsFree}
use disastr_os_message_queue.Kernel.Object.{Pcb, MessageQueue, message_queue, message, pcb}
use disastr_os_message_queue.Kernel.State.{Kernel, block_at, messages_pool, messages}
use disastr_os_message_queue.Kernel.Cmd.{as_message_queue}
use disastr_os_message_queue.Kernel.Laws.{
  Runs, with_running, load-ok, set_retvalue-ok, insert_last-ok,
}
use disastr_os_message_queue.Kernel.Invariant.{
  IsKernel, code_at, inside_at, store-typed, store-inside, pools-update, inside-update,
  pool-update_max, block_at_index, block_at_code,
}
use disastr_os_message_queue.MessageQueues.Blocks.Alloc.{message_alloc-ok, fresh-append}
use disastr_os_message_queue.MessageQueues.View.{IsQueue, level_queue, queue_list_by_priority-ok}
use disastr_os_message_queue.MessageQueues.Write.{write_level}

-- The kernel after a write of a message into the block `m`.
pub record Written (k : Kernel) (c : Contents) (free : ℕ → List ℕ) (self : Pcb) (mq : ℕ)
    (r : MessageQueue) (i : ℕ) (is : List ℕ) (buf : ℕ) (buf_size level : ℤ) (k' : Kernel)
    : Type 0 where
  pub kernel :
      IsKernel k'
        (update c
          (messages (level_queue k c mq level))
          (c (messages (level_queue k c mq level)) ++ block_at messages_pool i ∷ []))
        (update free messages_pool is)
  pub objects :
      k'.object
      ≡ update
          (update
            (update k.object
              (block_at messages_pool i)
              (message (record { text_length = buf_size; text = buf })))
            mq
            (message_queue (record r { num_messages = r.num_messages +ℤ pos 1 })))
          k.running
          (pcb (record self { syscall_retvalue = level }))
  pub same_running : k'.running ≡ k.running
  pub same_chars : k'.chars ≡ k.chars
  pub same_ints : k'.ints ≡ k.ints

module _ {k : Kernel} {c : Contents} {free : ℕ → List ℕ} (w : IsKernel k c free) {self : Pcb}
    (run : Runs k self) {mq : ℕ} {r : MessageQueue} (q : IsQueue k c mq r) (i : ℕ) (is : List ℕ)
    (first : free messages_pool ≡ i ∷ is) where
  running_code : k.running % 16 ≡ 1
  running_code = code_at w k.running (pcb self) run.control_block (omega arith)

  mq_code : mq % 16 ≡ 10
  mq_code = code_at w mq (message_queue r) q.object (omega arith)

  new_inside : block_at messages_pool i / 16 < (k.pool (block_at messages_pool i % 16)).size_max
  new_inside =
      rw (block_at_index messages_pool i (omega arith), block_at_code messages_pool i (omega arith))
        ((w.pools messages_pool (omega arith) (omega arith)).below i (rw first (ground arith)))

  -- With a free message block and a queue for the level, the message goes to the end of that queue.
  pub write_level-Written :
      (buf : ℕ) (buf_size level : ℤ)
      → level_queue k c mq level ≢ 0
      → (k' : Kernel) × (write_level mq buf buf_size level k ≡ ok (tt, k'))
        × Written k c free self mq r i is buf buf_size level k'
  unfolding write_level
  write_level-Written buf buf_size level found =
      let free_m : IsFree c (block_at messages_pool i) =
        w.fresh messages_pool i (omega arith) (rw first (ground arith)) in
      let (m, a, alloc, rep, pool, same) = message_alloc-ok w i is first buf buf_size in
      let k1 : Kernel = record k {
        lists = m;
        object =
            update k.object (block_at messages_pool i)
              (message (record { text_length = buf_size; text = buf }));
        pool = update k.pool messages_pool a;
      } in
      let (m', ins, rep') =
        insert_last-ok (messages (level_queue k c mq level)) (block_at messages_pool i) k1 c rep
          (λ e. omega arith) free_m in
      let k2 : Kernel = record k1 { lists = m' } in
      let still : k2.object mq ≡ message_queue r =
        rw (==-false mq (block_at messages_pool i) (λ e. omega (arith, mq_code))) q.object in
      let k3 : Kernel = record k2 {
        object =
            update k2.object mq
              (message_queue (record r { num_messages = r.num_messages +ℤ pos 1 }));
      } in
      let run3 : Runs k3 self = record {
        some_pcb = run.some_pcb;
        control_block =
            rw
              (
                ==-false k.running mq (λ e. omega (arith, mq_code, running_code)),
                ==-false k.running (block_at messages_pool i) (λ e. omega (arith, running_code)),
              )
              run.control_block;
      } in
      let kept : (p : ℕ)
          → p / 16 < (k.pool (p % 16)).size_max
          → p / 16 < (k3.pool (p % 16)).size_max =
        λ p lt. rw (pool-update_max k.pool messages_pool a same (p % 16)) lt in
      (
        with_running k3 (record self { syscall_retvalue = level }),
        rw
            (
              queue_list_by_priority-ok k c mq r level w.lists q,
              ==-false (level_queue k c mq level) 0 found,
            )
            (rw alloc (
              rw (==-false (block_at messages_pool i) 0 (λ e. omega arith)) (
                rw ins (
                  rw (load-ok as_message_queue mq k2 r q.some_mq (rw still refl))
                    (set_retvalue-ok k3 self run3 level))))),
        record {
          kernel = record {
            lists = rep';
            pools = pools-update k.pool free messages_pool a is w.pools pool;
            fresh =
                fresh-append w messages_pool i is (omega arith) (omega arith) first
                  (messages (level_queue k c mq level));
            typed =
                store-typed _ k.running (pcb _)
                  (store-typed _ mq (message_queue _)
                    (store-typed k.object (block_at messages_pool i) (message _) w.typed
                      (omega arith))
                    (sym mq_code))
                  (sym running_code);
            inside =
                store-inside _ k3.pool k.running (pcb _)
                  (store-inside _ k3.pool mq (message_queue _)
                    (store-inside k.object k3.pool (block_at messages_pool i) (message _)
                      (inside-update k.object k.pool messages_pool a same w.inside)
                      (kept (block_at messages_pool i) new_inside))
                    (kept mq (inside_at w mq (message_queue r) q.object (omega arith))))
                  (kept k.running
                    (inside_at w k.running (pcb self) run.control_block (omega arith)));
          };
          objects = refl;
          same_running = refl;
          same_chars = refl;
          same_ints = refl;
        },
      )
