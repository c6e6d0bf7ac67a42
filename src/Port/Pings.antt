-- ===== src/Port/Pings.antt =====
-- The buffer for pings of the mbed port's output queue is too small for a ping.
use wic.Base.{ℕ, ◌≡◌, ◌≤◌, ◌⊎◌, ap, ◌∙◌, refl, true, none, List, arith, length}
use wic.Types.{Buffer, Opcode, Role, State, Status}
use wic.Inst.{Inst, Sys, App, with_inst}
use wic.Inst.Handlers.{call_buffer, call_rand}
use wic.Frame.{TxFrame, min_frame_size, stream_put_frame, init_mask, is_client}
use wic.Close.{put_masked_frame, is_success}
use wic.Send.{
  data_frame, send_frame, wic_send_ping_with_payload, allowed_to_send, ready_client, is_opened,
}
use wic.Port.Os.{EventFlags, MessageQueue, Mail}
use wic.Port.Output.{OutputQueue, output_alloc, type_to_buf, slot_buffer}
use wic.Port.Client.{Client, handlers, handle_buffer, handle_rand}

-- What a send says that has not been done.
abbrev pub IsRefused : Status → Type 0
IsRefused status = (status ≡ Status.would_block) ⊎ (status ≡ Status.too_large)

min_ping : (n : ℕ) → 6 ≤ min_frame_size Opcode.ping true n
unfolding min_frame_size
min_ping n = ground arith

module _ {F Q M P : Type 0} (flag : EventFlags F) (queue : MessageQueue Q) (mail : Mail M)
    (rand : ℕ → ℕ) where
  abbrev app : App (Client F Q M P)
  app = handlers flag queue mail rand

  -- No buffer for a ping that is larger than the buffer.
  handle_buffer-none :
      (n : ℕ) (c : Client F Q M P)
      → 6 ≤ n
      → c.tx_queue.ping.max ≡ 2
      → (handle_buffer flag queue mail rand n Buffer.ping c).0 ≡ none
  unfolding handle_buffer output_alloc type_to_buf slot_buffer
  handle_buffer-none n c big small = ground (arith, big, small)

  call_buffer-none :
      (n : ℕ) (t : Buffer) (s : Sys (Client F Q M P))
      → t ≡ Buffer.ping
      → 6 ≤ n
      → s.world.tx_queue.ping.max ≡ 2
      → (call_buffer app n t s).0 ≡ none
  unfolding call_buffer
  call_buffer-none n t s type big small = rw type (handle_buffer-none n s.world big small)

  call_rand-keeps :
      (n : ℕ) (s : Sys (Client F Q M P))
      → ((call_rand app n s).1.self ≡ s.self)
        × ((call_rand app n s).1.world.tx_queue ≡ s.world.tx_queue)
  unfolding call_rand handle_rand
  call_rand-keeps n s = ground arith

  stream_put_ping :
      (f : TxFrame) (s : Sys (Client F Q M P))
      → f.type ≡ Buffer.ping
      → 6 ≤ min_frame_size f.opcode f.masked (length f.payload)
      → s.world.tx_queue.ping.max ≡ 2
      → IsRefused (stream_put_frame app f s).0
  unfolding stream_put_frame
  stream_put_ping f s type big small =
      let n = min_frame_size f.opcode f.masked (length f.payload) in
      let refused : (call_buffer app n f.type s).0 ≡ none =
        call_buffer-none n f.type s type big small in
      ground (arith, refused)

  put_ping :
      (b : List ℕ) (s : Sys (Client F Q M P))
      → s.self.role ≡ Role.client
      → s.world.tx_queue.ping.max ≡ 2
      → IsRefused (put_masked_frame app (data_frame Opcode.ping Buffer.ping true b) s).0
  unfolding put_masked_frame data_frame is_client init_mask
  put_ping b s client small =
      let kept = call_rand-keeps 0xaaaaaaaa s in
      let f = data_frame Opcode.ping Buffer.ping true b in
      let r = init_mask app f s in
      let remote : r.0.masked ≡ true = ap is_client (ap (λ (i : Inst). i.role) kept.0 ∙ client) in
      stream_put_ping r.0 r.1 refl (rw remote (min_ping (length b)))
        (ap (λ (q : OutputQueue F Q). q.ping.max) kept.1 ∙ small)

-- A client of the port that is allowed to send, whose buffer for pings has two bytes, never sends a
-- ping: whatever the payload is, wic_send_ping_with_payload says that it would block, or that the
-- payload is too large. A masked ping has six bytes or more.
pub wic_send_ping-IsRefused :
    {F Q M P : Type 0} (flag : EventFlags F) (queue : MessageQueue Q) (mail : Mail M) (rand : ℕ → ℕ)
    (b : List ℕ) (s : Sys (Client F Q M P))
    → s.self.role ≡ Role.client
    → (s.self.state ≡ State.ready) ⊎ (s.self.state ≡ State.opened)
    → s.world.tx_queue.ping.max ≡ 2
    → IsRefused (wic_send_ping_with_payload (handlers flag queue mail rand) b s).0
unfolding wic_send_ping_with_payload allowed_to_send ready_client is_opened send_frame is_success
wic_send_ping-IsRefused flag queue mail rand b s client state small =
    let s' = with_inst s (allowed_to_send s.self).1 in
    ground (arith, client, state, put_ping flag queue mail rand b s')
