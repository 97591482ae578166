-- ===== src/MessageQueues/Read/Deliver.antt =====
-- What the delivery of one message does, once it is detached.
use disastr_os_message_queue.Base.{
  ℕ, ◌/◌, ◌%◌, ◌<◌, ◌≡◌, refl, sym, ◌≢◌, true, false, List, ◌∷◌, arith, ◌==◌, update, ℤ, pos, ◌-ℤ◌,
  ok, has, has-cons_other, ==-false, ==_iff, Bool-cases, inl, inr, subst,
}
use disastr_os_message_queue.LinkedList.Memory.{Contents, IsFree}
use disastr_os_message_queue.Kernel.Object.{Pcb, MessageQueue, Message, message_queue, message, pcb}
use disastr_os_message_queue.Kernel.State.{Kernel, block_at, messages_pool}
use disastr_os_message_queue.Kernel.Cmd.{as_message_queue, as_message}
use disastr_os_message_queue.Kernel.Laws.{
  Runs, with_running, load-ok, set_retvalue-ok, release_block-ok, read_char-ok, write_char-ok,
  write_int-ok,
}
use disastr_os_message_queue.Kernel.Invariant.{
  IsKernel, code_at, inside_at, store-typed, store-inside, pools-update, inside-update,
  pool-update_max,
}
use disastr_os_message_queue.MessageQueues.Blocks.{message_free}
use disastr_os_message_queue.MessageQueues.Read.{deliver}

-- The kernel after a delivery of the message at `m`, of level `i`.
pub record Delivered (k : Kernel) (c : Contents) (free : ℕ → List ℕ) (self : Pcb) (mq : ℕ)
    (r : MessageQueue) (m : ℕ) (msg : Message) (i : ℤ) (buf priority : ℕ) (k' : Kernel)
    : Type 0 where
  pub kernel : IsKernel k' c (update free messages_pool (m / 16 ∷ free messages_pool))
  pub objects :
      k'.object
      ≡ update
          (update k.object mq (message_queue (record r { num_messages = r.num_messages -ℤ pos 1 })))
          k.running
          (pcb (record self { syscall_retvalue = msg.text_length }))
  pub chars : k'.chars ≡ update k.chars buf (k.chars msg.text)
  pub ints : k'.ints ≡ update k.ints priority i
  pub same_running : k'.running ≡ k.running

module _ {k : Kernel} {c : Contents} {free : ℕ → List ℕ} (w : IsKernel k c free) {self : Pcb}
    (run : Runs k self) {mq : ℕ} {r : MessageQueue} (some_mq : mq ≢ 0)
    (is_mq : k.object mq ≡ message_queue r) {m : ℕ} {msg : Message}
    (is_m : k.object m ≡ message msg) (loose : IsFree c m)
    (taken : has (m / 16) (free messages_pool) ≡ false) where
  running_code : k.running % 16 ≡ 1
  running_code = code_at w k.running (pcb self) run.control_block (omega arith)

  mq_code : mq % 16 ≡ 10
  mq_code = code_at w mq (message_queue r) is_mq (omega arith)

  m_code : m % 16 ≡ 14
  m_code = code_at w m (message msg) is_m (omega arith)

  m_block : block_at messages_pool (m / 16) ≡ m
  m_block = omega (arith, m_code)

  m_inside : m / 16 < (k.pool messages_pool).size_max
  m_inside =
      subst (λ d. m / 16 < (k.pool d).size_max) m_code
        (inside_at w m (message msg) is_m (omega arith))

  fresh-cons :
      (code j : ℕ)
      → code < 16
      → has j (update free messages_pool (m / 16 ∷ free messages_pool) code) ≡ true
      → IsFree c (block_at code j)
  fresh-cons code j low h = elim (Bool-cases (code == messages_pool)) [
    | inl same ↦ elim (Bool-cases (j == m / 16)) [
      | inl e ↦
          subst (IsFree c)
            (sym
              (omega (arith, m_code, (==_iff code messages_pool).0 same, (==_iff j (m / 16)).0 e)))
            loose
      | inr e ↦ w.fresh code j low (
          rw ((==_iff code messages_pool).0 same)
            (has-cons_other j (m / 16) (free messages_pool) (rw same at h) e))
    ]
    | inr other ↦ w.fresh code j low (rw other at h)
  ]

  pub deliver-Delivered :
      (i : ℤ) (buf priority : ℕ)
      → buf ≢ 0
      → priority ≢ 0
      → msg.text ≢ 0
      → (k' : Kernel) × (deliver mq m i buf priority k ≡ ok (tt, k'))
        × Delivered k c free self mq r m msg i buf priority k'
  unfolding deliver message_free
  deliver-Delivered i buf priority some_buf some_priority some_text =
      let k1 : Kernel = record k {
        object =
            update k.object mq
              (message_queue (record r { num_messages = r.num_messages -ℤ pos 1 }));
      } in
      let m_ne_mq : (m == mq) ≡ false = ==-false m mq (λ e. omega (arith, mq_code, m_code)) in
      let some_m : m ≢ 0 = λ e. omega (arith, m_code) in
      let k2 : Kernel = record k1 { chars = update k.chars buf (k.chars msg.text) } in
      let (a, freed, pool, same) =
        release_block-ok messages_pool (m / 16) (free messages_pool) k2 (omega arith)
          (w.pools messages_pool (omega arith) (omega arith)) m_inside taken in
      let k3 : Kernel = record k2 { pool = update k.pool messages_pool a } in
      let k4 : Kernel = record k3 { ints = update k.ints priority i } in
      let run4 : Runs k4 self = record {
        some_pcb = run.some_pcb;
        control_block =
            rw (==-false k.running mq (λ e. omega (arith, mq_code, running_code)))
              run.control_block;
      } in
      (
        with_running k4 (record self { syscall_retvalue = msg.text_length }),
        rw (load-ok as_message_queue mq k r some_mq (rw is_mq refl)) (
            rw (load-ok as_message m k1 msg some_m (rw (m_ne_mq, is_m) refl)) (
              rw (read_char-ok msg.text k1 some_text) (
                rw (write_char-ok buf (k.chars msg.text) k1 some_buf) (
                  rw (rw m_block at freed) (
                    rw (write_int-ok priority i k3 some_priority) (
                      rw (load-ok as_message m k4 msg some_m (rw (m_ne_mq, is_m) refl))
                        (set_retvalue-ok k4 self run4 msg.text_length))))))),
        record {
          kernel = record {
            lists = w.lists;
            pools = pools-update k.pool free messages_pool a _ w.pools pool;
            fresh = fresh-cons;
            typed =
                store-typed _ k.running (pcb _)
                  (store-typed k.object mq (message_queue _) w.typed (sym mq_code))
                  (sym running_code);
            inside =
                store-inside _ k3.pool k.running (pcb _)
                  (store-inside k.object k3.pool mq (message_queue _)
                    (inside-update k.object k.pool messages_pool a same w.inside)
                    (rw (pool-update_max k.pool messages_pool a same (mq % 16))
                      (inside_at w mq (message_queue r) is_mq (omega arith))))
                  (rw (pool-update_max k.pool messages_pool a same (k.running % 16))
                    (inside_at w k.running (pcb self) run.control_block (omega arith)));
          };
          objects = refl;
          chars = refl;
          ints = refl;
          same_running = refl;
        },
      )
