-- ===== src/Tests.antt =====
-- Test vectors, a client that runs, and the theorems at concrete inputs.
mod Calls
mod Examples
mod Mbed
mod Peers
mod Port
mod Server
use wic.Base.{
  ℕ, zero, suc, ◌+◌, ◌%◌, ◌<◌, ◌≤◌, ◌≡◌, ◌≢◌, ◌↔◌, refl, arith, List, [], ◌∷◌, true, false, Option,
  none, some, codes, replicate, write_at, length, get_or, if◌then◌else◌,
}
use wic.Types.{Buffer, Encoding, Opcode, Role, RxState, State, Status}
use wic.Stream.{stream_init_ro, stream_init, stream_error, written}
use wic.Inst.{Inst, Sys, App, HttpErrno}
use wic.Base64.{b64_encode}
use wic.Sha1.{server_hash}
use wic.Utf8.{utf8_parse_string, utf8_is_complete}
use wic.Utf8.Text.{IsText}
use wic.Utf8.Scalars.{utf8_parse_string-IsText}
use wic.Frame.{TxFrame, put_masked, fill_frame, min_frame_size, is_close}
use wic.Frame.Layout.{encode, xor_mask, fill_frame-encode}
use wic.Http.{HttpParser, HttpRun, Url}
use wic.Receive.Keeps.{KeepsRx}
use wic.Parse.{wic_parse}
use wic.Parse.Ends.{wic_parse_ends}
use wic.Parse.Bounds.{wic_parse-bound}
use wic.Parse.Closed.{closed_is_final}
use wic.Parse.{parse_handshake}
use wic.Parse.Deliver.{wic_parse-xor_mask}
use wic.Receive.Unmask.{Receiving, store_all, store_all-put_masked}
use wic.Stream.Laws.{stream_init-Holds}
use wic.Inst.{RxFrame, message}
use wic.Close.{close_with_reason}
use wic.Close.Laws.{KeepsClosed, close_with_reason-IsClosed}
use wic.Send.{wic_send, wic_send_ping_with_payload}
use wic.Send.Fragments.{KeepsProgress, Sent, wic_send-Sent}
use wic.Send.Text.{joined, send_text, send_text-IsText}
use wic.Init.{InitArg, wic_init, zeroed}
use wic.Init.Laws.{IsFresh, wic_init_lem}
use wic.Handshake.{wic_start}

-- The example of RFC 6455, section 1.3.
accept_key :
    b64_encode (server_hash (codes "dGhlIHNhbXBsZSBub25jZQ==")) 28
    ≡ codes "s3pPLMBiTxaQ9kYGzzhZRbK+xOo="
unfolding b64_encode server_hash write_at
accept_key = refl

-- An application that takes every message, hands out buffers of 200 bytes, and does nothing else.
abbrev pub quiet : App (Unit {0})
quiet = record {
  on_message = λ e fin bytes s. (true, s);
  on_open = λ s. s;
  on_close = λ code reason s. s;
  on_close_transport = λ s. s;
  on_handshake_failure = λ f s. s;
  on_send = λ bytes type s. s;
  on_buffer = λ n type s. (some (replicate 200 0), 200, s);
  rand = λ s. (0x04030201, s);
  on_ping = λ s. s;
  on_pong = λ s. s;
}

quiet-KeepsRx : KeepsRx quiet
quiet-KeepsRx = record {
  message = λ e fin b s. refl;
  opened = λ s. refl;
  closed = λ c b s. refl;
  transport = λ s. refl;
  failure = λ f s. refl;
  sent = λ b t s. refl;
  buffer = λ n t s. refl;
  random = λ s. refl;
  pinged = λ s. refl;
  ponged = λ s. refl;
}

-- A parser that reads nothing, for runs without a handshake.
abbrev pub no_http : HttpParser
no_http = record {
  parse_url = λ url u. none;
  execute = λ type fed bytes. HttpRun.finish 0 HttpErrno.ok;
}

-- A client that is open, with a receive buffer of ten bytes.
abbrev pub open_client : Sys (Unit {0})
open_client = record {
  self = record zeroed {
    state = State.opened;
    on_message = true;
    rand = true;
    rx = record (zeroed.rx) {
      s = record { writable = true; mem = replicate 10 0; size = 10; pos = 0; error = false };
    };
  };
  world = tt;
  log = [];
}

-- A close frame with the code 1000 and the reason "ok".
abbrev goodbye : TxFrame
goodbye = record {
  fin = true;
  rsv1 = false;
  rsv2 = false;
  rsv3 = false;
  opcode = Opcode.close;
  type = Buffer.close;
  code = 1000;
  masked = true;
  mask = 1 ∷ 2 ∷ 3 ∷ 4 ∷ [];
  payload = codes "ok";
}

pub small_mask : (k : ℕ) → get_or (1 ∷ 2 ∷ 3 ∷ 4 ∷ []) k 0 < 256
small_mask zero = omega arith
small_mask (suc zero) = omega arith
small_mask (suc (suc zero)) = omega arith
small_mask (suc (suc (suc zero))) = omega arith
small_mask (suc (suc (suc (suc k)))) = omega arith

fill_frame-encode_example :
    let n = min_frame_size Opcode.close true 2 in
    let tx =
      fill_frame goodbye
        (2 + (if is_close Opcode.close then 2 else 0))
        (stream_init (replicate 20 0) n) in
    (written tx ≡ encode goodbye) × (stream_error tx ≡ false) × (length (encode goodbye) ≡ n)
fill_frame-encode_example =
    fill_frame-encode goodbye (replicate 20 0)
      (unfold is_close in
        record {
          masked = refl;
          mask_size = refl;
          mask_bytes = small_mask;
          payload_bytes = omega arith;
          code_small = omega arith;
          content_small = omega arith;
        })
      (unfold min_frame_size in omega arith)

encode-goodbye : encode goodbye ≡ 0x88 ∷ 0x84 ∷ 1 ∷ 2 ∷ 3 ∷ 4 ∷ 2 ∷ 0xea ∷ 0x6c ∷ 0x6f ∷ []
unfolding encode
encode-goodbye = refl

utf8_parse_string-IsText_example :
    (utf8_is_complete (utf8_parse_string 0 (0xe2 ∷ 0x82 ∷ 0xac ∷ [])) ≡ true)
    ↔ IsText (0xe2 ∷ 0x82 ∷ 0xac ∷ [])
utf8_parse_string-IsText_example = utf8_parse_string-IsText (0xe2 ∷ 0x82 ∷ 0xac ∷ []) (omega arith)

-- An unmasked ping, "hi".
abbrev pub ping_frame : List ℕ
ping_frame = 0x89 ∷ 2 ∷ 0x68 ∷ 0x69 ∷ []

wic_parse_ends_example : wic_parse quiet (λ st. false) no_http ping_frame open_client ≢ none
wic_parse_ends_example =
    wic_parse_ends quiet (λ st. false) no_http ping_frame open_client quiet-KeepsRx (omega arith)

-- The system behind a result, and `other` where there is none.
abbrev outcome {ℓ} : {A : Type ℓ} → A → Option (ℕ × A) → A
outcome other none = other
outcome other (some (n, a)) = a

-- The first byte of a binary frame that is not the last of its message.
abbrev first_byte : List ℕ
first_byte = 2 ∷ []

abbrev after_byte : Sys (Unit {0})
after_byte = outcome open_client (wic_parse quiet (λ st. false) no_http first_byte open_client)

byte_is_read : wic_parse quiet (λ st. false) no_http first_byte open_client ≡ some (1, after_byte)
unfolding write_at wic.Send.is_opened wic.Send.send_pong_with_payload wic.Send.allowed_to_send
    wic.Send.ready_client wic.Send.send_frame wic.Send.data_frame wic.Parse.wic_parse
    wic.Parse.parse_loop wic.Parse.parse_round wic.Parse.parse_payload wic.Parse.parse_in_state
    wic.Parse.is_parsing wic.Receive.parse_opcode wic.Receive.accept_opcode wic.Receive.start_frame
    wic.Receive.has_flag wic.Receive.filter_opcode wic.Receive.parse_size wic.Receive.accept_size
    wic.Receive.check_size wic.Receive.size_switch wic.Receive.after_size wic.Receive.message_opcode
    wic.Receive.Data.parse_data wic.Receive.Data.finish_data wic.Receive.Data.receive_data
    wic.Receive.Data.accept_data wic.Receive.Data.check_byte wic.Receive.Data.store_byte
    wic.Receive.Data.finish_frame wic.Receive.Data.finish_ping wic.Receive.Data.would_block
    wic.Receive.Data.received wic.Stream.stream_read wic.Stream.stream_get_u8
    wic.Stream.stream_init_ro wic.Stream.stream_rewind wic.Stream.stream_max wic.Stream.stream_eof
    wic.Stream.stream_pos wic.Stream.stream_error wic.Stream.stream_put_u8 wic.Stream.stream_put_u16
    wic.Stream.stream_write wic.Stream.stream_init wic.Stream.written wic.Close.put_masked_frame
    wic.Close.is_success wic.Close.send_stream wic.Frame.byte_to_opcode wic.Frame.opcodes
    wic.Frame.stream_put_frame wic.Frame.min_frame_size wic.Frame.init_mask wic.Frame.fill_frame
    wic.Frame.bytes_of_u32 wic.Frame.flags_byte wic.Frame.is_client wic.Frame.is_close
    wic.Frame.opcode_to_byte wic.Frame.put_body wic.Frame.put_length wic.Frame.put_masked
    wic.Inst.Handlers.call_rand wic.Inst.Handlers.call_buffer wic.Inst.Handlers.call_send
    wic.Inst.Handlers.call_ping
byte_is_read = refl

wic_parse-bound_example : 1 ≤ length first_byte
wic_parse-bound_example =
    wic_parse-bound quiet (λ st. false) no_http first_byte open_client 1 after_byte byte_is_read

-- The receiver of a binary frame with the payload "hi", its header read.
abbrev hi_frame : RxFrame
hi_frame = record (zeroed.rx) {
  fin = true;
  opcode = Opcode.binary;
  mask = 1 ∷ 2 ∷ 3 ∷ 4 ∷ [];
  masked = true;
  size = 2;
  state = RxState.payload;
  s = stream_init (replicate 10 0) 10;
}

hi_frame-Receiving : Receiving hi_frame (1 ∷ 2 ∷ 3 ∷ 4 ∷ []) 10 []
hi_frame-Receiving = record {
  masked = refl;
  same_mask = refl;
  buffer = stream_init-Holds (replicate 10 0) 10 (omega arith) (omega arith);
}

abbrev hi_client : Sys (Unit {0})
hi_client = record open_client { self = record (open_client.self) { rx = hi_frame } }

store_all-put_masked_example :
    let tx = put_masked (1 ∷ 2 ∷ 3 ∷ 4 ∷ []) 0 (codes "hi") (stream_init (replicate 20 0) 20) in
    let rx = store_all (written tx) hi_frame in (written rx.s ≡ codes "hi") × (rx.size ≡ 0)
store_all-put_masked_example =
    store_all-put_masked (1 ∷ 2 ∷ 3 ∷ 4 ∷ []) (codes "hi") hi_frame 10
      (stream_init (replicate 20 0) 20) 20 small_mask (omega arith) hi_frame-Receiving (omega arith)
      (stream_init-Holds (replicate 20 0) 20 (omega arith) (omega arith)) (omega arith)

wic_parse-xor_mask_example :
    (s' : Sys (Unit {0})) × (wic_parse quiet
        (λ st. false)
        no_http
        (xor_mask (1 ∷ 2 ∷ 3 ∷ 4 ∷ []) 0 (codes "hi"))
        hi_client
      ≡ some (2, s'))
    × (s'.log ≡ message Encoding.binary true (codes "hi") ∷ [])
    × (s'.self.rx.state ≡ RxState.opcode)
    × (s'.self.state ≡ State.opened)
wic_parse-xor_mask_example =
    wic_parse-xor_mask quiet (λ st. false) no_http (1 ∷ 2 ∷ 3 ∷ 4 ∷ []) 10 b'h' (b'i' ∷ [])
      hi_client (λ e fin b s. s.world, λ e fin b s. refl) small_mask (omega arith)
      (record {
        opened = refl;
        phase = refl;
        binary = refl;
        handler = refl;
        receiving = hi_frame-Receiving;
        size = refl;
      })
      (omega arith) (omega arith)

-- A parser that reads a response with the status 200, whatever the input.
abbrev ok_response : HttpRun
ok_response = HttpRun.complete 200 0 4 (HttpRun.finish 4 HttpErrno.ok)

abbrev http_200 : HttpParser
http_200 = record no_http { execute = λ type fed bytes. ok_response }

abbrev starting_client : Sys (Unit {0})
starting_client = record open_client {
  self = record (open_client.self) { state = State.parse_handshake };
}
