-- ===== src/Send.antt =====
-- Sending: `wic_send*`, `send_pong_with_payload` and `allowed_to_send` of src/wic.c.
pub mod Calls
pub mod Fragments
pub mod Text
pub mod Wire
use wic.Base.{ℕ, List, [], Bool, true, false, ◌||◌, not, Option, none, some, if◌then◌else◌}
use wic.Types.{Buffer, Encoding, Opcode, Role, State, Status}
use wic.Utf8.{utf8_parse_string, utf8_is_complete, utf8_is_invalid}
use wic.Inst.{Inst, Sys, App, with_inst, with_state}
use wic.Frame.{TxFrame}
use wic.Close.{is_success, put_masked_frame, send_stream}

-- A frame with no reserved bit.
unfoldable pub data_frame : Opcode → Buffer → Bool → List ℕ → TxFrame
data_frame opcode type fin payload = record {
  fin = fin;
  rsv1 = false;
  rsv2 = false;
  rsv3 = false;
  opcode = opcode;
  type = type;
  code = 0;
  masked = false;
  mask = [];
  payload = payload;
}

unfoldable pub ready_client : Role → State → Bool
ready_client Role.client State.ready = true
ready_client _ _ = false

unfoldable pub is_opened : State → Bool
is_opened State.opened = true
is_opened _ = false

-- A client that is ready becomes open here.
unfoldable pub allowed_to_send : Inst → Bool × Inst
unfolding ready_client is_opened
allowed_to_send self =
    let self' = if ready_client self.role self.state then with_state self State.opened else self in
    (is_opened self'.state, self')

-- `switch(self->frag)` of `wic_send_binary`: the opcode to send, none where text is under way.
unfoldable pub binary_opcode : Opcode → Option Opcode
binary_opcode Opcode.cont = some Opcode.binary
binary_opcode Opcode.binary = some Opcode.cont
binary_opcode _ = none

-- `switch(self->frag)` of `wic_send_text`: the opcode to send and the state to check the text
-- from, none where binary is under way.
unfoldable pub text_opcode : Opcode → ℕ → Option (Opcode × ℕ)
text_opcode Opcode.cont utf8_tx = some (Opcode.text, 0)
text_opcode Opcode.text utf8_tx = some (Opcode.cont, utf8_tx)
text_opcode _ utf8_tx = none

module _ {W : Type 0} (app : App W) where
  -- Write the frame; where that succeeds, change the instance by `commit` and send it.
  unfoldable pub send_frame : TxFrame → (Inst → Inst) → Sys W → Status × Sys W
  unfolding is_success
  send_frame f commit s =
      let (status, tx, s') = put_masked_frame app f s in
      if is_success status
      then (status, send_stream app tx f.type (with_inst s' (commit s'.self)))
      else (status, s')

  unfoldable pub wic_send_binary : Bool → List ℕ → Sys W → Status × Sys W
  unfolding data_frame
  wic_send_binary fin bytes s =
      let (allowed, self) = allowed_to_send s.self in
      let s' = with_inst s self in
      if allowed
      then elim (binary_opcode self.frag) [
        | some opcode ↦
            send_frame (data_frame opcode Buffer.user fin bytes)
              (λ i. record i { frag = if fin then Opcode.cont else Opcode.binary }) s'
        | none ↦ (Status.bad_state, s')
      ]
      else (Status.not_open, s')

  unfoldable pub wic_send_text : Bool → List ℕ → Sys W → Status × Sys W
  unfolding data_frame
  wic_send_text fin bytes s =
      let (allowed, self) = allowed_to_send s.self in
      let s' = with_inst s self in
      if allowed
      then elim (text_opcode self.frag self.utf8_tx) [
        | some (opcode, start) ↦
            let state = utf8_parse_string start bytes in
            if utf8_is_invalid state
            then (Status.bad_input, s')
            else if not fin || utf8_is_complete state
            then send_frame (data_frame opcode Buffer.user fin bytes)
                (λ i. record i { utf8_tx = state; frag = if fin then Opcode.cont else Opcode.text })
                s'
            else (Status.bad_input, s')
        | none ↦ (Status.bad_state, s')
      ]
      else (Status.not_open, s')

  unfoldable pub wic_send : Encoding → Bool → List ℕ → Sys W → Status × Sys W
  wic_send Encoding.binary fin bytes s = wic_send_binary fin bytes s
  wic_send Encoding.utf8 fin bytes s = wic_send_text fin bytes s

  unfoldable pub wic_send_ping_with_payload : List ℕ → Sys W → Status × Sys W
  unfolding data_frame
  wic_send_ping_with_payload bytes s =
      let (allowed, self) = allowed_to_send s.self in
      let s' = with_inst s self in
      if allowed
      then send_frame (data_frame Opcode.ping Buffer.ping true bytes) (λ i. i) s'
      else (Status.not_open, s')

  unfoldable pub wic_send_ping : Sys W → Status × Sys W
  wic_send_ping s = wic_send_ping_with_payload [] s

  unfoldable pub send_pong_with_payload : List ℕ → Sys W → Status × Sys W
  unfolding data_frame
  send_pong_with_payload bytes s =
      let (allowed, self) = allowed_to_send s.self in
      let s' = with_inst s self in
      if allowed
      then send_frame (data_frame Opcode.pong Buffer.pong true bytes) (λ i. i) s'
      else (Status.not_open, s')
