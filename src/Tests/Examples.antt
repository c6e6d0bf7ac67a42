-- ===== src/Tests/Examples.antt =====
-- The example programs over a socket that is written out.
use wic.Examples.Transport.{transport_recv}
use wic.Examples.Receive.{transport_recv_lem}
use wic.Tests.Server.{shy, shy-Willing, shy-KeepsRx}
use wic.Inst.{Inst}
use wic.Headers.{wic_get_next_header}
use wic.Examples.Demo.{skip_headers}
use wic.Examples.Fields.{skip_headers_lem}
use wic.Base.{
  if◌then◌else◌, leb, Bool-cases, inl, inr, ℕ, ◌<◌, ◌≤◌, ◌≡◌, ◌⊎◌, refl, true, false, Option, none,
  some, List, [], ◌∷◌, ◌++◌, arith, codes, length, replicate, take, ap,
}
use wic.Types.{Encoding, Opcode, State, close_abnormal_2}
use wic.Close.{wic_close_with_reason}
use wic.Inst.{Sys}
use wic.Init.{zeroed}
use wic.Frame.Layout.{encode}
use wic.Send.Wire.{masked_frame, first_frame}
use wic.Parse.{wic_parse}
use wic.Parse.Plain.{plain}
use wic.Parse.Messages.{Listening}
use wic.Examples.Transport.{Sockets, Program, Fd, decimal, transport_write}
use wic.Examples.Write.{IsWriter, transport_write_lem}
use wic.Examples.Autobahn.{echoing}
use wic.Examples.Echo.{wic_parse-echoed}
use wic.Tests.{no_http}
use wic.Tests.Peers.{letter-IsText}

-- A system that takes one byte at a time and keeps what was written.
abbrev write_one : Fd → List ℕ → List ℕ → Option ℕ × List ℕ
write_one fd [] net = (none, net)
write_one fd (b ∷ bytes) net = (some 1, net ++ b ∷ [])

abbrev slow : Sockets (List ℕ)
slow = record {
  getaddrinfo = λ host service net. (some 1, net);
  socket = λ addr net. (some 3, net);
  connect = λ fd addr net. (true, net);
  close = λ fd net. net;
  write = write_one;
  recv = λ fd size net. (none, net);
  rand = λ net. (7, net);
}

write_one_takes :
    (fd : Fd) (bytes net : List ℕ) (k : ℕ)
    → (write_one fd bytes net).0 ≡ some k
    → (0 < k) × (k ≤ length bytes) × ((write_one fd bytes net).1 ≡ net ++ take k bytes)
write_one_takes fd [] net k e = cc
write_one_takes fd (b ∷ bytes) net k e =
    let one : 1 ≡ k = cc in
    (omega (arith, one), omega (arith, one), ap (λ (n : ℕ). net ++ take n (b ∷ bytes)) one)

write_one_fails :
    (fd : Fd) (bytes net : List ℕ)
    → (write_one fd bytes net).0 ≡ none
    → (write_one fd bytes net).1 ≡ net
write_one_fails fd [] net e = refl
write_one_fails fd (b ∷ bytes) net e = cc

slow-IsWriter : IsWriter slow (λ net. net)
slow-IsWriter = record { takes = write_one_takes; fails = write_one_fails; draws = λ net. refl }

port_in_digits : decimal 9001 ≡ codes "9001"
unfolding decimal
port_in_digits = refl

transport_write_lem_example :
    (front rest : List ℕ) × (front ++ rest ≡ codes "ab")
    × (transport_write slow (some 3) (codes "ab") [] ≡ front)
    × ((rest ≡ []) ⊎ ((failed : List ℕ) × ((write_one (some 3) rest failed).0 ≡ none)))
transport_write_lem_example =
    transport_write_lem slow (λ net. net) (some 3) (codes "ab") [] slow-IsWriter

-- A client of the test suite that is connected.
abbrev connected : Sys (Program (List ℕ))
connected = record {
  self = record zeroed {
    state = State.opened;
    on_message = true;
    rand = true;
    rx = record (zeroed.rx) {
      s = record { writable = true; mem = replicate 10 0; size = 10; pos = 0; error = false };
    };
  };
  world = record { s = some 3; net = []; n = 0 };
  log = [];
}

connected-Listening : Listening connected 10
connected-Listening = record {
  ready = record {
    opened = refl;
    phase = refl;
    writable = refl;
    capacity = refl;
    held = omega arith;
    small = omega arith;
  };
  fresh = refl;
  handler = refl;
}

wic_parse-echoed_example :
    let wire = plain true Opcode.text (codes "a") in
    (mask : ℕ) × (s' : Sys (Program (List ℕ))) × (wic_parse
        (echoing slow length)
        (λ st. false)
        no_http
        wire
        connected
      ≡ some (length wire, s'))
    × (s'.world.net ≡ encode (masked_frame (first_frame Encoding.utf8 true (codes "a")) mask))
    × Listening s' 10
    × (s'.self.frag ≡ Opcode.cont)
wic_parse-echoed_example =
    wic_parse-echoed slow length (λ net. net) (λ st. false) no_http 10 Encoding.utf8 (codes "a")
      connected slow-IsWriter (λ b bytes net e. cc) connected-Listening refl refl (omega arith)
      letter-IsText (omega arith) (omega arith)

-- The same system, with two bytes to receive.
abbrev talking : Sockets (List ℕ)
talking = record slow {
  recv = λ fd size net. (if leb 2 size then some (137 ∷ 0 ∷ []) else none, net);
}

talking_fits :
    (fd : Fd) (n : ℕ) (net bytes : List ℕ)
    → (talking.recv fd n net).0 ≡ some bytes
    → length bytes ≤ n
talking_fits fd n net bytes e = elim (Bool-cases (leb 2 n)) [
  | inl big ↦
      let got : some (137 ∷ 0 ∷ []) ≡ some bytes = rw big at e in
      let same : 137 ∷ 0 ∷ [] ≡ bytes = cc got in
      let two : 2 ≡ length bytes = ap (λ (xs : List ℕ). length xs) same in ground (arith, big, two)
  | inr small ↦ let got : none ≡ some bytes = rw small at e in absurd (cc got)
]

transport_recv_lem_example :
    let (got, net) = talking.recv (some 3) 1000 [] in
    (got ≡ none)
      × (transport_recv talking shy (λ st. false) no_http connected
          ≡ some (false, wic_close_with_reason shy close_abnormal_2 [] connected))
    ⊎ (bytes : List ℕ) × (s' : Sys (Program (List ℕ))) × (got ≡ some bytes)
      × (transport_recv talking shy (λ st. false) no_http connected ≡ some (true, s'))
      × ((bytes ≡ []) × (s' ≡ connected)
          ⊎ (wic_parse shy (λ st. false) no_http bytes connected ≡ some (length bytes, s')))
transport_recv_lem_example =
    transport_recv_lem talking shy (λ st. false) no_http connected shy-Willing shy-KeepsRx
      (λ st. refl) talking_fits refl (omega arith)

-- An instance with one field of the server, "a: b", in its receive buffer.
abbrev one_field : Inst
one_field = record zeroed {
  rx = record (zeroed.rx) {
    s = record {
      writable = true;
      mem = b'a' ∷ 0 ∷ b'b' ∷ 0 ∷ [];
      size = 4;
      pos = 4;
      error = false;
    };
  };
}

skip_headers_lem_example :
    let self' = skip_headers 5 one_field in
    ((wic_get_next_header self').0 ≡ none) × (self'.rx ≡ one_field.rx)
skip_headers_lem_example = skip_headers_lem one_field (omega arith) (omega arith)
