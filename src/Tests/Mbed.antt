-- ===== src/Tests/Mbed.antt =====
-- A client of the mbed port, whose input queue has a block for each message, that hears a server.
use wic.Base.{ℕ, ◌≡◌, refl, true, false, some, List, [], ◌∷◌, arith, codes, length, replicate}
use wic.Types.{Encoding, State}
use wic.Inst.{Sys, App}
use wic.Init.{zeroed}
use wic.Parse.{wic_parse}
use wic.Parse.Deliver.{Takes}
use wic.Parse.Plain.{plain}
use wic.Parse.Messages.{Listening, messages as wire_of, heard, wic_parse-messages}
use wic.Port.Client.{handlers, handle_message}
use wic.Tests.{no_http}
use wic.Tests.Peers.{letter-IsText}
use wic.Tests.Port.{flags, messages, mails, TestClient, new_client}

abbrev mbed : App TestClient
mbed = handlers flags messages mails (λ n. n)

mbed-Takes : Takes mbed
unfolding handle_message wic.Port.Inputs.input_alloc
mbed-Takes = (
  λ e fin b s. (handle_message flags messages mails (λ n. n) e fin b s.world).1,
  λ e fin b s. refl,
)

abbrev listening : Sys TestClient
listening = record {
  self = record zeroed {
    state = State.opened;
    on_message = true;
    rand = true;
    rx = record (zeroed.rx) {
      s = record { writable = true; mem = replicate 10 0; size = 10; pos = 0; error = false };
    };
  };
  world = new_client;
  log = [];
}

-- A text and a binary message.
abbrev two_messages : List (Encoding × List ℕ)
two_messages = (Encoding.utf8, codes "a") ∷ (Encoding.binary, 7 ∷ []) ∷ []

wic_parse-messages_example :
    (s' : Sys TestClient) × (wic_parse mbed (λ st. false) no_http (wire_of two_messages) listening
      ≡ some (length (wire_of two_messages), s'))
    × (s'.log ≡ heard two_messages [])
    × Listening s' 10
wic_parse-messages_example =
    wic_parse-messages mbed (λ st. false) no_http 10 two_messages listening mbed-Takes
      (record {
        ready = record {
          opened = refl;
          phase = refl;
          writable = refl;
          capacity = refl;
          held = omega arith;
          small = omega arith;
        };
        fresh = refl;
        handler = refl;
      })
      (
        omega arith,
        letter-IsText,
        omega arith,
        omega arith,
        (omega arith, tt, omega arith, omega arith, tt),
      )
      (unfold plain in omega arith)
