-- ===== src/Types.antt =====
-- The enumerations and structures of include/wic.h.
use wic.Base.{ℕ, List}

-- enum wic_buffer
pub data Buffer : Type 0 where
  http user ping pong close close_response : Buffer

-- enum wic_encoding
pub data Encoding : Type 0 where
  utf8 binary : Encoding

-- enum wic_handshake_failure
pub data HandshakeFailure : Type 0 where
  abnormal_1 abnormal_2 tls irrelevant protocol upgrade : HandshakeFailure

-- enum wic_role
pub data Role : Type 0 where
  client server : Role

-- enum wic_schema
pub data Schema : Type 0 where
  http https ws wss : Schema

-- enum wic_rx_state
pub data RxState : Type 0 where
  opcode size size_0 size_1 : RxState
  size_2 size_3 size_4 size_5 size_6 size_7 size_8 size_9 : RxState
  mask_0 mask_1 mask_2 mask_3 payload : RxState

-- enum wic_opcode
pub data Opcode : Type 0 where
  cont text binary reserve_3 reserve_4 reserve_5 reserve_6 reserve_7 : Opcode
  close ping pong reserve_11 reserve_12 reserve_13 reserve_14 reserve_15 : Opcode

-- enum wic_state
pub data State : Type 0 where
  init parse_handshake ready opened closed : State

-- enum wic_header_state
pub data HeaderState : Type 0 where
  idle field value : HeaderState

-- enum wic_status
pub data Status : Type 0 where
  success not_open too_large would_block bad_state bad_input timeout : Status

-- The WIC_CLOSE_* codes.
abbrev pub close_normal : ℕ
close_normal = 1000

abbrev pub close_going_away : ℕ
close_going_away = 1001

abbrev pub close_protocol_error : ℕ
close_protocol_error = 1002

abbrev pub close_unsupported : ℕ
close_unsupported = 1003

abbrev pub close_abnormal_1 : ℕ
close_abnormal_1 = 1005

abbrev pub close_abnormal_2 : ℕ
close_abnormal_2 = 1006

abbrev pub close_invalid_data : ℕ
close_invalid_data = 1007

abbrev pub close_policy : ℕ
close_policy = 1008

abbrev pub close_too_big : ℕ
close_too_big = 1009

abbrev pub close_extension_required : ℕ
close_extension_required = 1010

abbrev pub close_unexpected_exception : ℕ
close_unexpected_exception = 1011

abbrev pub close_tls : ℕ
close_tls = 1015

-- struct wic_header, without its link: the list holds the links.
pub record Header : Type 0 where
  pub name : List ℕ
  pub value : List ℕ
