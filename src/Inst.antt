-- ===== src/Inst.antt =====
-- struct wic_inst, the application's handlers, and the calls of them.
pub mod Handlers
pub mod Carries
use wic.Base.{
  ℕ, suc, List, [], ◌∷◌, Bool, true, false, Option, none, some, take, if◌then◌else◌, u16,
}
use wic.Types.{
  Buffer, Encoding, HandshakeFailure, Role, Schema, RxState, Opcode, State, HeaderState, Header,
}
use wic.Stream.{Stream, written}

-- struct wic_rx_frame, without `pos`, which nothing uses.
pub record RxFrame : Type 0 where
  pub fin : Bool
  pub rsv1 : Bool
  pub rsv2 : Bool
  pub rsv3 : Bool
  pub opcode : Opcode
  pub frag : Opcode
  pub mask : List ℕ
  pub size : ℕ
  pub masked : Bool
  pub state : RxState
  pub utf8 : ℕ
  pub s : Stream

-- enum http_errno, as far as it is told apart here.
pub data HttpErrno : Type 0 where
  ok cb_header_field cb_header_value cb_message_complete other : HttpErrno

-- enum http_parser_type
pub data HttpType : Type 0 where
  request response : HttpType

-- struct http_parser: what it was initialised to parse, the bytes that it was given since, and
-- its error. Its other state is a function of these.
pub record Http : Type 0 where
  pub type : HttpType
  pub fed : List ℕ
  pub errno : HttpErrno

-- struct wic_inst. A handler's field says whether its pointer is set; `redirect_url` is an offset
-- into the receive buffer, and `app` an opaque pointer. `tx_max`, which nothing uses, is left out.
pub record Inst : Type 0 where
  pub role : Role
  pub state : State
  pub rx : RxFrame
  pub on_message : Bool
  pub on_open : Bool
  pub on_close : Bool
  pub on_close_transport : Bool
  pub on_handshake_failure : Bool
  pub on_send : Bool
  pub on_buffer : Bool
  pub rand : Bool
  pub on_ping : Bool
  pub on_pong : Bool
  pub app : ℕ
  pub url : Option (List ℕ)
  pub schema : Schema
  pub status_code : ℕ
  pub port : ℕ
  pub tx_header : List Header
  pub header_state : HeaderState
  pub http : Http
  pub frag : Opcode
  pub pos : ℕ
  pub utf8_tx : ℕ
  pub utf8_rx : ℕ
  pub hash : List ℕ
  pub hostname : List ℕ
  pub redirect_url : Option ℕ

-- A call of a handler, with its arguments.
pub data Call : Type 0 where
  get_buffer : ℕ → Buffer → Call
  send : List ℕ → Buffer → Call
  message : Encoding → Bool → List ℕ → Call
  opened : Call
  closed : ℕ → List ℕ → Call
  close_transport : Call
  handshake_failure : HandshakeFailure → Call
  pinged : Call
  ponged : Call
  random : Call

-- An instance with what the application keeps beside it, and the calls made so far, the last
-- one first.
pub record Sys (W : Type 0) : Type 0 where
  pub self : Inst
  pub world : W
  pub log : List Call

-- The application. A handler may call the functions of the interface, so it returns a new system.
-- `on_buffer` returns the memory that it hands out, none for NULL, and `max_size`.
pub record App (W : Type 0) : Type 0 where
  pub on_message : Encoding → Bool → List ℕ → Sys W → Bool × Sys W
  pub on_open : Sys W → Sys W
  pub on_close : ℕ → List ℕ → Sys W → Sys W
  pub on_close_transport : Sys W → Sys W
  pub on_handshake_failure : HandshakeFailure → Sys W → Sys W
  pub on_send : List ℕ → Buffer → Sys W → Sys W
  pub on_buffer : ℕ → Buffer → Sys W → Option (List ℕ) × ℕ × Sys W
  pub rand : Sys W → ℕ × Sys W
  pub on_ping : Sys W → Sys W
  pub on_pong : Sys W → Sys W

abbrev pub note : {W : Type 0} → Call → Sys W → Sys W
note c s = record s { log = c ∷ s.log }

abbrev pub with_inst : {W : Type 0} → Sys W → Inst → Sys W
with_inst s i = record s { self = i }

abbrev pub with_rx : Inst → RxFrame → Inst
with_rx i r = record i { rx = r }

abbrev pub with_state : Inst → State → Inst
with_state i st = record i { state = st }
