-- ===== src/Tests/Calls.antt =====
-- The theorems on closing, sending and initialising at concrete inputs.
use wic.Base.{◌%◌, ◌≡◌, refl, arith, [], ◌∷◌, true, false, none, some, codes, replicate, write_at}
use wic.Types.{Buffer, Encoding, Opcode, Role, State, Status}
use wic.Stream.{stream_init_ro, stream_init, stream_error, written}
use wic.Inst.{Inst, Sys, App, HttpErrno}
use wic.Utf8.{utf8_parse_string, utf8_is_complete}
use wic.Utf8.Text.{IsText}
use wic.Frame.{TxFrame, put_masked, fill_frame, min_frame_size, is_close}
use wic.Http.{HttpParser, Url}
use wic.Parse.{wic_parse}
use wic.Parse.Closed.{closed_is_final}
use wic.Inst.{RxFrame, message}
use wic.Close.{close_with_reason}
use wic.Close.Laws.{KeepsClosed, close_with_reason-IsClosed}
use wic.Send.{wic_send, wic_send_ping_with_payload}
use wic.Send.Fragments.{KeepsProgress, Sent, wic_send-Sent}
use wic.Send.Text.{joined, send_text, send_text-IsText}
use wic.Init.{InitArg, wic_init, zeroed}
use wic.Init.Laws.{IsFresh, wic_init_lem}
use wic.Handshake.{wic_start}
use wic.Tests.{quiet, no_http, open_client, ping_frame}

quiet-KeepsClosed : KeepsClosed quiet
quiet-KeepsClosed = record {
  closed = λ c b s h. h;
  transport = λ s h. h;
  failure = λ f s h. h;
  sent = λ b t s h. h;
  buffer = λ n t s h. h;
  random = λ s h. h;
}

close_with_reason-IsClosed_example :
    (close_with_reason quiet 1000 (codes "ok") Buffer.close open_client).self.state ≡ State.closed
close_with_reason-IsClosed_example =
    close_with_reason-IsClosed quiet quiet-KeepsClosed 1000 (codes "ok") Buffer.close open_client

abbrev closed_client : Sys (Unit {0})
closed_client = record open_client { self = record (open_client.self) { state = State.closed } }

closed_is_final_example :
    (close_with_reason quiet 1000 ping_frame Buffer.close closed_client ≡ closed_client)
    × (wic_send quiet Encoding.utf8 true ping_frame closed_client
        ≡ (Status.not_open, closed_client))
    × (wic_send_ping_with_payload quiet ping_frame closed_client ≡ (Status.not_open, closed_client))
    × (wic_start quiet no_http closed_client ≡ (Status.bad_state, closed_client))
    × (wic_parse quiet (λ st. false) no_http ping_frame closed_client ≡ some (4, closed_client))
closed_is_final_example =
    closed_is_final quiet (λ st. false) no_http closed_client Encoding.utf8 true ping_frame 1000
      Buffer.close refl

quiet-KeepsProgress : KeepsProgress quiet
quiet-KeepsProgress = record { sent = λ b t s. refl; buffer = λ n t s. refl; random = λ s. refl }

wic_send-Sent_example :
    Sent Encoding.binary false open_client
      (wic_send quiet Encoding.binary false ping_frame open_client)
wic_send-Sent_example =
    wic_send-Sent quiet quiet-KeepsProgress Encoding.binary false ping_frame open_client

-- The euro sign, cut in two.
euro_is_sent : (send_text quiet ((0xe2 ∷ []) ∷ []) (0x82 ∷ 0xac ∷ []) open_client).0 ≡ true
unfolding send_text write_at wic.Send.wic_send wic.Send.wic_send_text wic.Send.wic_send_binary
    wic.Send.allowed_to_send wic.Send.text_opcode wic.Send.binary_opcode wic.Send.send_frame
    wic.Send.data_frame wic.Send.is_opened wic.Send.ready_client wic.Send.send_pong_with_payload
    wic.Utf8.utf8_is_invalid wic.Utf8.utf8_is_complete wic.Utf8.utf8_parse_string
    wic.Utf8.utf8_parse wic.Utf8.utf8_states wic.Utf8.utf8_types wic.Close.put_masked_frame
    wic.Close.is_success wic.Close.send_stream wic.Frame.stream_put_frame wic.Frame.min_frame_size
    wic.Frame.init_mask wic.Frame.fill_frame wic.Frame.bytes_of_u32 wic.Frame.flags_byte
    wic.Frame.is_client wic.Frame.is_close wic.Frame.opcode_to_byte wic.Frame.put_body
    wic.Frame.put_length wic.Frame.put_masked wic.Inst.Handlers.call_rand
    wic.Inst.Handlers.call_buffer wic.Inst.Handlers.call_send wic.Stream.stream_error
    wic.Stream.stream_put_u8 wic.Stream.stream_put_u16 wic.Stream.stream_write
    wic.Stream.stream_init wic.Stream.written
euro_is_sent = refl

send_text-IsText_example :
    IsText (joined ((0xe2 ∷ []) ∷ []) (0x82 ∷ 0xac ∷ []))
    × ((send_text quiet ((0xe2 ∷ []) ∷ []) (0x82 ∷ 0xac ∷ []) open_client).1.self.frag
        ≡ Opcode.cont)
send_text-IsText_example =
    send_text-IsText quiet ((0xe2 ∷ []) ∷ []) (0x82 ∷ 0xac ∷ []) open_client quiet-KeepsProgress
      refl (unfold joined in omega arith) euro_is_sent

-- A parser that finds the schema and the host of "ws://a", and nothing else.
abbrev ws_http : HttpParser
ws_http = record no_http {
  parse_url = λ url u. some (record u {
    has_port = false;
    schema = record { off = 0; len = 2 };
    host = record { off = 5; len = 1 };
  });
}

abbrev some_url : Url
some_url = record {
  has_port = false;
  port = 0;
  schema = record { off = 0; len = 0 };
  host = record { off = 0; len = 0 };
  port_field = record { off = 0; len = 0 };
  path = record { off = 0; len = 0 };
  query = record { off = 0; len = 0 };
  fragment = record { off = 0; len = 0 };
}

abbrev client_arg : InitArg
client_arg = record {
  rx = replicate 10 0;
  rx_max = 10;
  on_message = true;
  on_open = false;
  on_close = true;
  on_close_transport = true;
  on_handshake_failure = true;
  on_ping = true;
  on_pong = true;
  rand = true;
  on_send = true;
  on_buffer = true;
  app = 0;
  url = some (codes "ws://a");
  role = Role.client;
}

abbrev new_client : Inst
new_client = elim (wic_init ws_http some_url client_arg) [ none ↦ zeroed | some i ↦ i ]

client_is_new : wic_init ws_http some_url client_arg ≡ some new_client
unfolding wic_init
client_is_new = refl

wic_init_lem_example :
    IsFresh new_client
    × (new_client.on_send ≡ true)
    × (new_client.on_buffer ≡ true)
    × (new_client.rx.s.mem ≡ client_arg.rx)
    × (new_client.rx.s.size ≡ client_arg.rx_max % 0x1_0000_0000)
    × (new_client.on_ping ≡ false)
    × (new_client.on_pong ≡ false)
wic_init_lem_example = wic_init_lem ws_http some_url client_arg new_client client_is_new
