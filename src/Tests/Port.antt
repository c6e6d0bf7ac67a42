-- ===== src/Tests/Port.antt =====
-- A client of the mbed port over queues, flags and a socket that are written out.
use wic.Base.{
  ℕ, suc, write_at, ◌<◌, ◌≡◌, take, ◌+◌, ◌≢◌, inr, refl, Bool, true, false, not, ◌||◌, ◌&&◌, Option,
  none, some, List, [], ◌∷◌, ◌++◌, codes, length, arith, ◌==◌, if◌then◌else◌, bit_and,
}
use wic.Inst.{Sys, HttpErrno}
use wic.Init.{zeroed}
use wic.Port.Buffers.{new_buffer, buffer_init}
use wic.Port.Inputs.{input_alloc, input_put, set_block}
use wic.Frame.{min_frame_size}
use wic.Port.Os.{Slot, EventFlags, MessageQueue, Mail, MemoryPool}
use wic.Port.Output.{new_output}
use wic.Port.Client.{Client, ClientState, NsapiError, new_job}
use wic.Port.Jobs.{Network}
use wic.Port.Writes.{InBuffer, unsent, writes, writes_in_order}
use wic.Port.Queue.{IsMail, absent}
use wic.Types.{Buffer, State, Encoding}
use wic.Send.{wic_send_ping_with_payload}
use wic.Port.Output.{output_alloc, type_to_buf, slot_buffer}
use wic.Port.Client.{handlers, handle_message, notify_readers}
use wic.Port.Jobs.{get_rx, do_open, flush_input_queue}
use wic.Port.Calls.{try_get}
use wic.Port.Os.{QueueShrinks, MailShrinks}
use wic.Port.Answers.{EndsAnswered, do_open-IsAnswered}
use wic.Port.Pings.{IsRefused, wic_send_ping-IsRefused}
use wic.Port.Queue.{
  messages_of, waiting, has_block, handle_message-waiting, try_get-waiting,
  flush_input_queue-waiting,
}
use wic.Port.Slots.{
  Use, use_all, spares, spare_all, Asks, output_alloc_once, output_alloc-fits, is_set, IsFlags,
  same, mask_of,
}
use wic.Port.Thread.{Task, Round, Received, Sent, worker_task}
use wic.Port.Sound.{is_over}
use wic.Port.Ends.{worker_task_ends}
use wic.Http.{HttpParser, HttpRun}
use wic.Handshake.{url_zero}

-- Four flags.
pub record Flags : Type 0 where
  user : Bool
  close : Bool
  ping : Bool
  pong : Bool

abbrev weight : ℕ → Bool → ℕ
weight n b = if b then n else 0

abbrev touches : ℕ → ℕ → Bool
touches mask flag = not (bit_and mask flag == 0)

abbrev pub flags : EventFlags Flags
flags = record {
  get = λ f. weight 1 f.user + (weight 2 f.close + (weight 4 f.ping + weight 8 f.pong));
  set = λ m f. record {
    user = touches m 1 || f.user;
    close = touches m 2 || f.close;
    ping = touches m 4 || f.ping;
    pong = touches m 8 || f.pong;
  };
  clear = λ m f. record {
    user = not (touches m 1) && f.user;
    close = not (touches m 2) && f.close;
    ping = not (touches m 4) && f.ping;
    pong = not (touches m 8) && f.pong;
  };
}

abbrev pub take_first : {A : Type 0} → List A → Option A × List A
take_first [] = (none, [])
take_first (x ∷ xs) = (some x, xs)

-- A queue that is first in, first out.
abbrev pub messages : MessageQueue (List (Option Slot))
messages = record {
  put = λ slot priority q. (true, q ++ (slot ∷ []));
  get = take_first;
  waiting = length;
}

abbrev pub total : List ℕ → ℕ
total [] = 0
total (n ∷ ns) = n + total ns

-- A mail that always has another block; it stands for the blocks that were put.
abbrev pub mails : Mail (List ℕ)
mails = record {
  alloc = λ put. (some (suc (total put)), put);
  put = λ p put. put ++ (p ∷ []);
  get = take_first;
  free = λ p put. put;
  pending = length;
}

abbrev pool : MemoryPool Bool
pool = record { alloc = λ there. (there, false); free = λ there. true }

abbrev pub TestClient : Type 0
TestClient = Client Flags (List (Option Slot)) (List ℕ) Bool

-- A client that has not been opened.
abbrev pub new_client : TestClient
new_client = record {
  state = ClientState.closed;
  input_queue = record { mail = []; blocks = λ k. new_buffer 100 0 0; block_size = 100 };
  tx_queue = new_output 514 (record { user = false; close = false; ping = false; pong = false }) [];
  rx_pool = true;
  url = codes "ws://a";
  url_max = 200;
  rx = none;
  tx = none;
  job = new_job;
  signals = [];
  draws = 0;
  worker = record { rx = none; rx_pos = 0; tx = none; tx_pos = 0 };
}

abbrev start : Sys TestClient
start = record { self = zeroed; world = new_client; log = [] }

-- A parser that reads the URL of the client, and no HTTP.
abbrev ws_http : HttpParser
ws_http = record {
  parse_url = λ url u.
      some (record u { schema = record { off = 0; len = 2 }; host = record { off = 5; len = 1 } });
  execute = λ type fed bytes. HttpRun.finish 0 HttpErrno.ok;
}

abbrev net : Network
net = record { gethostbyname = λ name. NsapiError.ok; connect = λ socket port. NsapiError.ok }

abbrev rounds : List Round
rounds =
    record {
      tasks = Task.opens ∷ [];
      net = net;
      recv = λ n. Received.would_block;
      send = λ b. Sent.count (length b);
    }
    ∷ record {
      tasks = Task.handshake_timeout ∷ [];
      net = net;
      recv = λ n. Received.bytes (codes "HTTP");
      send = λ b. Sent.would_block;
    }
    ∷ []

messages-QueueShrinks : QueueShrinks messages
messages-QueueShrinks [] m got = absurd (ground (arith, got))
messages-QueueShrinks (x ∷ xs) m got = omega arith

mails-MailShrinks : MailShrinks mails
mails-MailShrinks [] p got = absurd (ground (arith, got))
mails-MailShrinks (x ∷ xs) p got = omega arith

worker_task_ends_example :
    worker_task flags messages mails pool (λ n. n) ws_http url_zero (λ st. false) 512 rounds start
    ≢ none
unfolding is_over new_buffer
worker_task_ends_example =
    worker_task_ends flags messages mails pool (λ n. n) ws_http url_zero (λ st. false) 512 rounds
      start messages-QueueShrinks mails-MailShrinks ((omega arith, λ k. omega arith), inr refl)

total-absent : (p : ℕ) (ks : List ℕ) → total ks < p → absent p ks ≡ true
unfolding absent
total-absent p [] h = refl
total-absent p (k ∷ ks) h = ground (arith, total-absent p ks)

mails-IsMail : IsMail mails (λ put. put)
mails-IsMail = record {
  alloc_keeps = λ m. refl;
  alloc_fresh = λ m p e. ground (arith, total-absent p m, e);
  put_last = λ p m. refl;
  get_none = λ m e. rw (take_first, e) (refl, refl);
  get_first = λ m p ps e. rw (take_first, e) (refl, refl);
  free_keeps = λ p m. refl;
  pending_length = λ m. refl;
}

set_flag :
    (a b : Slot) (f : Flags)
    → is_set flags (flags.set (mask_of b) f) a ≡ (same a b || is_set flags f a)
unfolding same mask_of
set_flag a b f = ground arith

clear_flag :
    (a b : Slot) (f : Flags)
    → is_set flags (flags.clear (mask_of b) f) a ≡ (not (same a b) && is_set flags f a)
unfolding same mask_of
clear_flag a b f = ground arith

flags-IsFlags : IsFlags flags
flags-IsFlags = record { set_flag = set_flag; clear_flag = clear_flag }

do_open-IsAnswered_example :
    EndsAnswered flags messages mails
      (λ n. n)
      (do_open flags messages mails (λ n. n) net ws_http url_zero start)
unfolding get_rx input_alloc
do_open-IsAnswered_example =
    do_open-IsAnswered flags messages mails (λ n. n) net ws_http url_zero start mails-MailShrinks
      (λ e. cc)

-- A client whose connection is open.
abbrev connected : Sys TestClient
connected = record start {
  self = record zeroed { state = State.opened; rand = true; on_message = true };
}

wic_send_ping-IsRefused_example :
    IsRefused
      (wic_send_ping_with_payload (handlers flags messages mails (λ n. n)) (codes "hi") connected).0
unfolding new_output new_buffer
wic_send_ping-IsRefused_example =
    wic_send_ping-IsRefused flags messages mails (λ n. n) (codes "hi") connected refl (inr refl)
      refl

handle_message-waiting_example :
    let (taken, c') =
      handle_message flags messages mails (λ n. n) Encoding.binary true (codes "hi") new_client in
    (taken ≡ has_block mails new_client.input_queue.mail)
    × (waiting (λ put. put) c' ≡ (
        if taken
        then waiting (λ put. put) new_client ++ ((Encoding.binary, true, codes "hi") ∷ [])
        else waiting (λ put. put) new_client))
handle_message-waiting_example =
    handle_message-waiting flags messages mails (λ n. n) (λ put. put) Encoding.binary true
      (codes "hi") new_client mails-IsMail (omega arith)

-- A client with a message that waits.
abbrev told : TestClient
told = (handle_message flags messages mails (λ n. n) Encoding.binary true (codes "hi") new_client).1

try_get-waiting_example :
    let (r, c') = try_get mails 1 told in
    (r.message ≡ some (Encoding.binary, true, take 1 (codes "hi"))) × (waiting (λ put. put) c' ≡ [])
unfolding handle_message input_alloc input_put set_block new_buffer buffer_init messages_of
    notify_readers write_at
try_get-waiting_example =
    try_get-waiting mails (λ put. put) 1 told (Encoding.binary, true, codes "hi") [] mails-IsMail
      refl

flush_input_queue-waiting_example :
    (c' : TestClient) × (flush_input_queue flags messages mails (λ n. n) told ≡ some c')
    × (waiting (λ put. put) c' ≡ [])
flush_input_queue-waiting_example =
    flush_input_queue-waiting flags messages mails (λ n. n) (λ put. put) told mails-IsMail

output_alloc_once_example :
    (output_alloc flags messages Buffer.http 0 (
      use_all flags messages
        (Use.puts (some Slot.user) ∷ Use.frees Slot.pong ∷ [])
        (output_alloc flags messages Buffer.user 20 new_client.tx_queue).2)).0
    ≢ some Slot.user
unfolding new_output new_buffer output_alloc same spares spare_all type_to_buf slot_buffer
output_alloc_once_example =
    output_alloc_once flags messages Buffer.user Buffer.http 20 0 new_client.tx_queue Slot.user
      (Use.puts (some Slot.user) ∷ Use.frees Slot.pong ∷ []) flags-IsFlags (refl, refl, refl, refl)
      refl refl

output_alloc-fits_example :
    (output_alloc flags messages Buffer.pong 9
      (new_output (100 + 14) new_client.tx_queue.flags [])).0
    ≡ some Slot.pong
unfolding new_output new_buffer type_to_buf min_frame_size mask_of
output_alloc-fits_example =
    output_alloc-fits flags messages 100 9 new_client.tx_queue.flags [] Buffer.pong
      (Asks.pong 3 (omega arith)) refl

-- A client with a buffer of five bytes to send.
abbrev sending : TestClient
sending = record new_client {
  tx_queue = record (new_client.tx_queue) {
    user = record (new_buffer 5 1 0) { mem = codes "hello"; size = 5 };
  };
  worker = record (new_client.worker) { tx = some Slot.user };
}

sending-InBuffer :
    InBuffer flags messages mails pool (λ n. n) ws_http url_zero (λ st. false) 3 sending
unfolding slot_buffer
sending-InBuffer Slot.user e = (omega arith, omega arith)
sending-InBuffer Slot.close e = ground (arith, e)
sending-InBuffer Slot.ping e = ground (arith, e)
sending-InBuffer Slot.pong e = ground (arith, e)

writes_in_order_example :
    let (bytes, c') =
      writes flags messages mails pool
        (λ n. n)
        ws_http
        url_zero
        (λ st. false)
        3
        (2 ∷ 9 ∷ [])
        sending in
    bytes ++ unsent flags messages mails pool (λ n. n) ws_http url_zero (λ st. false) 3 c'
    ≡ unsent flags messages mails pool (λ n. n) ws_http url_zero (λ st. false) 3 sending
unfolding slot_buffer
writes_in_order_example =
    writes_in_order flags messages mails pool (λ n. n) ws_http url_zero (λ st. false) 3 (2 ∷ 9 ∷ [])
      sending sending-InBuffer
