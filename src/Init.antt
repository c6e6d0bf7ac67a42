-- ===== src/Init.antt =====
-- `wic_init` of src/wic.c, and the functions that read a field of the instance.
pub mod Laws
use wic.Base.{
  ℕ, ◌-◌, List, [], ◌∷◌, Bool, true, false, ◌&&◌, not, Option, none, some, ltb, ◌==◌, if◌then◌else◌,
  codes, length, replicate, write_at,
}
use wic.Types.{Role, Schema, RxState, Opcode, State, HeaderState}
use wic.Stream.{stream_init}
use wic.Inst.{Inst, HttpErrno, HttpType}
use wic.Frame.{is_client}
use wic.Http.{HttpParser, Url, Slice, slice}

-- struct wic_init_arg: whether each handler is set, the receive memory, and the rest.
pub record InitArg : Type 0 where
  pub rx : List ℕ
  pub rx_max : ℕ
  pub on_message : Bool
  pub on_open : Bool
  pub on_close : Bool
  pub on_close_transport : Bool
  pub on_handshake_failure : Bool
  pub on_ping : Bool
  pub on_pong : Bool
  pub rand : Bool
  pub on_send : Bool
  pub on_buffer : Bool
  pub app : ℕ
  pub url : Option (List ℕ)
  pub role : Role

-- WIC_HOSTNAME_MAXLEN
abbrev pub hostname_maxlen : ℕ
hostname_maxlen = 256

-- `memset(self, 0, sizeof(*self))`
abbrev pub zeroed : Inst
zeroed = record {
  role = Role.client;
  state = State.init;
  rx = record {
    fin = false;
    rsv1 = false;
    rsv2 = false;
    rsv3 = false;
    opcode = Opcode.cont;
    frag = Opcode.cont;
    mask = replicate 4 0;
    size = 0;
    masked = false;
    state = RxState.opcode;
    utf8 = 0;
    s = record { writable = false; mem = []; size = 0; pos = 0; error = false };
  };
  on_message = false;
  on_open = false;
  on_close = false;
  on_close_transport = false;
  on_handshake_failure = false;
  on_send = false;
  on_buffer = false;
  rand = false;
  on_ping = false;
  on_pong = false;
  app = 0;
  url = none;
  schema = Schema.http;
  status_code = 0;
  port = 0;
  tx_header = [];
  header_state = HeaderState.idle;
  http = record { type = HttpType.request; fed = []; errno = HttpErrno.ok };
  frag = Opcode.cont;
  pos = 0;
  utf8_tx = 0;
  utf8_rx = 0;
  hash = replicate 20 0;
  hostname = replicate hostname_maxlen 0;
  redirect_url = none;
}

-- `memcmp(a, b, n) == 0` on texts of one length.
unfoldable pub bytes_equal : List ℕ → List ℕ → Bool
bytes_equal [] [] = true
bytes_equal (x ∷ xs) (y ∷ ys) = x == y && bytes_equal xs ys
bytes_equal _ _ = false

-- `supported_schema` with `schema_map`.
unfoldable pub supported_schema : List (List ℕ × Schema)
supported_schema =
    (codes "http", Schema.http)
    ∷ (codes "https", Schema.https)
    ∷ (codes "ws", Schema.ws)
    ∷ (codes "wss", Schema.wss)
    ∷ []

-- The loop over the schemata: the first whose text is the URL's.
unfoldable pub find_schema : List (List ℕ × Schema) → List ℕ → Slice → Option Schema
unfolding bytes_equal slice
find_schema [] url f = none
find_schema ((name, schema) ∷ rest) url f =
    if f.len == length name && bytes_equal (slice url f) name
    then some schema
    else find_schema rest url f

unfoldable pub default_port : Schema → ℕ
default_port Schema.http = 80
default_port Schema.ws = 80
default_port _ = 443

-- What a URL gives: the schema, the port, and the host's name in its buffer.
unfoldable pub url_parts : List ℕ → Url → Option (Schema × ℕ × List ℕ)
unfolding find_schema supported_schema default_port
url_parts url u = elim (find_schema supported_schema url u.schema) [
  | none ↦ none
  | some schema ↦
      let port = if u.has_port then u.port else default_port schema in
      if ltb (hostname_maxlen - 1) u.host.len
      then none
      else some (schema, port, write_at (replicate hostname_maxlen 0) 0 (slice url u.host))
]

unfoldable pub is_some : Option (List ℕ) → Bool
is_some none = false
is_some (some x) = true

-- The end of `wic_init`, with every check passed.
unfoldable pub fill_inst : InitArg → Schema → ℕ → List ℕ → Inst
unfolding stream_init
fill_inst arg schema port hostname = record zeroed {
  rx = record (zeroed.rx) { s = stream_init arg.rx arg.rx_max };
  url = arg.url;
  schema = schema;
  app = arg.app;
  role = arg.role;
  port = port;
  hostname = hostname;
  on_message = arg.on_message;
  on_open = arg.on_open;
  on_close = arg.on_close;
  on_send = arg.on_send;
  on_buffer = arg.on_buffer;
  rand = arg.rand;
  on_close_transport = arg.on_close_transport;
  on_handshake_failure = arg.on_handshake_failure;
  http = record { type = HttpType.response; fed = []; errno = HttpErrno.ok };
}

module _ (http : HttpParser) where
  -- The part for the URL, where there is one. `undef` is what `u` holds before it is set.
  unfoldable pub init_url : Url → Option (List ℕ) → Option (Schema × ℕ × List ℕ)
  unfolding url_parts
  init_url undef none = some (Schema.ws, 0, replicate hostname_maxlen 0)
  init_url undef (some url) = elim (http.parse_url url undef) [
    | none ↦ none
    | some u ↦ url_parts url u
  ]

  -- None where the source returns `false`. It accepts the client role only, so that its last
  -- branch, for a server, is not reached.
  unfoldable pub wic_init : Url → InitArg → Option Inst
  unfolding is_client is_some init_url fill_inst
  wic_init undef arg =
      if not arg.on_send
      then none
      else if not arg.on_buffer
      then none
      else if is_client arg.role && not (is_some arg.url)
      then none
      else elim (init_url undef arg.url) [
        | none ↦ none
        | some (schema, port, hostname) ↦
            if is_client arg.role then some (fill_inst arg schema port hostname) else none
      ]

unfoldable pub wic_get_url : Inst → Option (List ℕ)
wic_get_url self = self.url

unfoldable pub wic_get_url_hostname : Inst → Option (List ℕ)
unfolding is_some
wic_get_url_hostname self = if is_some self.url then some self.hostname else none

unfoldable pub wic_get_status_code : Inst → ℕ
wic_get_status_code self = self.status_code

unfoldable pub wic_get_url_port : Inst → ℕ
wic_get_url_port self = self.port

unfoldable pub wic_get_url_schema : Inst → Schema
wic_get_url_schema self = self.schema

-- A position in the receive buffer.
unfoldable pub wic_get_redirect_url : Inst → Option ℕ
wic_get_redirect_url self = self.redirect_url

unfoldable pub wic_get_app : Inst → ℕ
wic_get_app self = self.app

unfoldable pub wic_get_state : Inst → State
wic_get_state self = self.state
