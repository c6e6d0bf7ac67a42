-- ===== src/Parse/Ends.antt =====
-- `wic_parse` ends: its loop does, from any system that the handshake leaves.
use wic.Base.{
  ℕ, ◌+◌, ◌*◌, ◌≤◌, ◌<◌, ◌≡◌, ◌≢◌, inl, inr, refl, Bool, none, List, [], ◌∷◌, arith, Bool-cases,
  length,
}
use wic.Types.{Role}
use wic.Stream.{Stream, stream_init_ro, stream_seek, stream_put_u8}
use wic.Inst.{Inst, Sys, App}
use wic.Http.{HttpParser, HttpRun}
use wic.Receive.Keeps.{KeepsRx, call_open-rx, call_close_transport-rx, call_handshake_failure-rx}
use wic.Headers.{store_bytes, store_nul, on_header_field, on_header_value}
use wic.Handshake.{on_response_complete, on_request_complete}
use wic.Parse.{
  parse_fuel, parse_handshake, is_parsing, wic_parse, run_http, http_execute, on_complete,
}
use wic.Parse.Progress.{room, stream_write-size, InStream, left, measure}
use wic.Parse.Loop.{parse_loop_ends}

pub stream_init_ro-InStream : (bytes : List ℕ) → InStream (stream_init_ro bytes (length bytes))
unfolding stream_init_ro
stream_init_ro-InStream bytes = (omega arith, omega arith)

pub stream_init_ro_size :
    (bytes : List ℕ) → (stream_init_ro bytes (length bytes)).size ≤ length bytes
unfolding stream_init_ro
stream_init_ro_size bytes = omega arith

measure-le : {W : Type 0} (s : Sys W) (st : Stream) → measure s st ≤ 2 * left st + 1
measure-le s st = ground arith

store_bytes-room : (b : List ℕ) (i : Inst) → (store_bytes b i).rx.s.size ≡ i.rx.s.size
unfolding store_bytes
store_bytes-room b i = stream_write-size i.rx.s b

store_nul-room : (i : Inst) → (store_nul i).rx.s.size ≡ i.rx.s.size
unfolding store_nul stream_put_u8
store_nul-room i = stream_write-size i.rx.s (0 ∷ [])

on_header_field-room : (b : List ℕ) (i : Inst) → (on_header_field b i).1.rx.s.size ≡ i.rx.s.size
unfolding on_header_field store_bytes store_nul stream_put_u8
on_header_field-room b i = grind (arith, stream_write-size)

on_header_value-room : (b : List ℕ) (i : Inst) → (on_header_value b i).1.rx.s.size ≡ i.rx.s.size
unfolding on_header_value store_bytes store_nul stream_put_u8
on_header_value-room b i = grind (arith, stream_write-size)

on_complete-room :
    (r : Role) (status upgrade : ℕ) (i : Inst)
    → (on_complete r status upgrade i).1.rx.s.size ≡ i.rx.s.size
unfolding on_complete on_response_complete on_request_complete
on_complete-room Role.client status upgrade i = grind (arith, store_nul-room)
on_complete-room Role.server status upgrade i = grind (arith, store_nul-room)

run_http-room : (r : HttpRun) (i : Inst) → (run_http r i).2.rx.s.size ≡ i.rx.s.size
unfolding run_http
run_http-room (HttpRun.finish n errno) i = refl
run_http-room (HttpRun.field b n rest) i =
    ground (arith, on_header_field-room b i, run_http-room rest (on_header_field b i).1)
run_http-room (HttpRun.value b n rest) i =
    ground (arith, on_header_value-room b i, run_http-room rest (on_header_value b i).1)
run_http-room (HttpRun.complete status upgrade n rest) i = ground (
  arith,
  on_complete-room i.role status upgrade i,
  run_http-room rest (on_complete i.role status upgrade i).1,
)

http_execute-room :
    (http : HttpParser) (b : List ℕ) (i : Inst) → (http_execute http b i).1.rx.s.size ≡ i.rx.s.size
unfolding http_execute
http_execute-room http b i = ground (arith, run_http-room (http.execute i.http.type i.http.fed b) i)

pub stream_seek-left :
    (st : Stream) (n : ℕ)
    → InStream st
    → InStream (stream_seek st n).1 × (left (stream_seek st n).1 ≤ st.size)
unfolding stream_seek
stream_seek-left st n h = ground arith

pub parse_handshake-room :
    {W : Type 0} (app : App W) (http : HttpParser) (b : List ℕ) (s : Sys W) (st : Stream)
    → KeepsRx app
    → room (parse_handshake app http b s st).0 ≡ room s
unfolding parse_handshake stream_seek
parse_handshake-room app http b s st keeps = grind (
  arith,
  http_execute-room http b s.self,
  call_handshake_failure-rx app keeps,
  call_close_transport-rx app keeps,
  call_open-rx app keeps,
)

pub parse_handshake-stream :
    {W : Type 0} (app : App W) (http : HttpParser) (b : List ℕ) (s : Sys W) (st : Stream)
    → (parse_handshake app http b s st).1 ≡ (stream_seek st (http_execute http b s.self).0).1
unfolding parse_handshake
parse_handshake-stream app http b s st = ground arith

-- With a receive buffer of one byte or more, and handlers that leave the receiver alone, an
-- instance in any state parses any input to an end: the loop does not run on for ever.
pub wic_parse_ends :
    {W : Type 0} (app : App W) (undef : Stream → Bool) (http : HttpParser) (bytes : List ℕ)
    (s : Sys W)
    → KeepsRx app
    → 0 < room s
    → wic_parse app undef http bytes s ≢ none
unfolding wic_parse
wic_parse_ends app undef http bytes s keeps pos =
    let st = stream_init_ro bytes (length bytes) in
    elim (Bool-cases (is_parsing s.self.state)) [
      | inl p ↦
          let r = parse_handshake app http bytes s st in
          let n = (http_execute http bytes s.self).0 in
          rw p (
            ground (
              arith,
              parse_loop_ends app keeps undef (parse_fuel (length bytes)) r.0 r.1,
              measure-le r.0 r.1,
              parse_handshake-room app http bytes s st keeps,
              parse_handshake-stream app http bytes s st,
              stream_seek-left st n (stream_init_ro-InStream bytes),
              stream_init_ro_size bytes,
            ))
      | inr q ↦ rw q (
          ground (
            arith,
            parse_loop_ends app keeps undef (parse_fuel (length bytes)) s st
                (stream_init_ro-InStream bytes) pos,
            measure-le s st,
            stream_init_ro_size bytes,
          ))
    ]
