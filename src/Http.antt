-- ===== src/Http.antt =====
-- What the library takes from the vendored HTTP parser (src/http_parser.c, include/http_parser.h),
-- which is not modelled: its functions are arguments of the model.
use wic.Base.{ℕ, List, Bool, Option, take, drop}
use wic.Inst.{HttpType, HttpErrno}

-- A field of `struct http_parser_url`: `off` and `len`.
pub record Slice : Type 0 where
  pub off : ℕ
  pub len : ℕ

-- struct http_parser_url. `has_port` is the bit UF_PORT of `field_set`, `port_field` the entry
-- UF_PORT of `field_data`.
pub record Url : Type 0 where
  pub has_port : Bool
  pub port : ℕ
  pub schema : Slice
  pub host : Slice
  pub port_field : Slice
  pub path : Slice
  pub query : Slice
  pub fragment : Slice

unfoldable pub slice : List ℕ → Slice → List ℕ
slice url f = take f.len (drop f.off url)

-- One run of `http_parser_execute`: the callbacks that it makes, in order. A callback that fails
-- ends the run, with the number of bytes that stands beside it; `complete` comes with the
-- `status_code` and the `upgrade` of the parser.
pub data HttpRun : Type 0 where
  finish : ℕ → HttpErrno → HttpRun
  field : List ℕ → ℕ → HttpRun → HttpRun
  value : List ℕ → ℕ → HttpRun → HttpRun
  complete : ℕ → ℕ → ℕ → HttpRun → HttpRun

-- `parse_url` takes what `struct http_parser_url` holds before the call, and returns none for a
-- URL that it refuses. `execute` takes the bytes since `http_parser_init`, then the new ones.
pub record HttpParser : Type 0 where
  pub parse_url : List ℕ → Url → Option Url
  pub execute : HttpType → List ℕ → List ℕ → HttpRun
