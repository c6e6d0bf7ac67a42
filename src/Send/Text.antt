-- ===== src/Send/Text.antt =====
-- A text message that is sent in fragments.
use wic.Base.{ℕ, ◌≡◌, refl, Bool, true, false, List, [], ◌∷◌, ◌++◌, arith, if◌then◌else◌, sym}
use wic.Types.{Encoding, Opcode}
use wic.Utf8.{utf8_parse, utf8_parse_string, utf8_is_complete}
use wic.Utf8.Text.{IsText, AllBytes}
use wic.Utf8.Scalars.{utf8_parse_string-IsText}
use wic.Inst.{Sys, App}
use wic.Close.{is_success}
use wic.Send.{wic_send}
use wic.Send.Fragments.{KeepsProgress, progress, text_start, wic_send_text-Sent}

-- What the fragments say together.
unfoldable pub joined : List (List ℕ) → List ℕ → List ℕ
joined [] last = last
joined (b ∷ bs) last = b ++ joined bs last

utf8_parse_string-append :
    (u : ℕ) (xs ys : List ℕ)
    → utf8_parse_string u (xs ++ ys) ≡ utf8_parse_string (utf8_parse_string u xs) ys
unfolding utf8_parse_string
utf8_parse_string-append u [] ys = refl
utf8_parse_string-append u (x ∷ xs) ys = utf8_parse_string-append (utf8_parse u x) xs ys

module _ {W : Type 0} (app : App W) where
  -- The fragments sent one by one, the last one with `fin`, until one is refused: whether all were
  -- sent.
  unfoldable pub send_text : List (List ℕ) → List ℕ → Sys W → Bool × Sys W
  unfolding is_success
  send_text [] last s =
      let (status, s') = wic_send app Encoding.utf8 true last s in (is_success status, s')
  send_text (b ∷ bs) last s =
      let (status, s') = wic_send app Encoding.utf8 false b s in
      let rest = send_text bs last s' in if is_success status then rest else (false, s')

module _ {W : Type 0} (app : App W) (keeps : KeepsProgress app) where
  send_text_complete :
      (bs : List (List ℕ)) (last : List ℕ) (s : Sys W)
      → (send_text app bs last s).0 ≡ true
      → (utf8_is_complete (utf8_parse_string (text_start (progress s)) (joined bs last)) ≡ true)
        × ((send_text app bs last s).1.self.frag ≡ Opcode.cont)
  unfolding send_text joined wic_send is_success
  send_text_complete [] last s e = ground (arith, wic_send_text-Sent app keeps true last s)
  send_text_complete (b ∷ bs) last s e = ground (
    arith,
    wic_send_text-Sent app keeps false b s,
    utf8_parse_string-append (text_start (progress s)) b (joined bs last),
    send_text_complete bs last (wic_send app Encoding.utf8 false b s).1,
  )

-- With handlers that do not send further fragments from within a send: if no message is under way
-- and every fragment of a text is sent, then the fragments together are
-- UTF-8 encodings of Unicode scalar values, however these were cut, and no message is under way
-- again.
pub send_text-IsText :
    {W : Type 0} (app : App W) (bs : List (List ℕ)) (last : List ℕ) (s : Sys W)
    → KeepsProgress app
    → s.self.frag ≡ Opcode.cont
    → AllBytes (joined bs last)
    → (send_text app bs last s).0 ≡ true
    → IsText (joined bs last) × ((send_text app bs last s).1.self.frag ≡ Opcode.cont)
send_text-IsText app bs last s keeps fresh hb e =
    let done = send_text_complete app keeps bs last s e in
    let start : text_start (progress s) ≡ 0 = rw fresh refl in
    ((utf8_parse_string-IsText (joined bs last) hb).0 (rw (sym start) done.0), done.1)
