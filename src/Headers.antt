-- ===== src/Headers.antt =====
-- Header fields: `wic_set_header`, `wic_get_header`, the iterator over the peer's header fields,
-- and the two callbacks that store them.
use wic.Base.{
  ℕ, zero, suc, ◌+◌, List, [], ◌∷◌, Bool, true, false, ◌&&◌, Option, none, some, u16, ltb, leb,
  ◌==◌, if◌then◌else◌, strlen, drop,
}
use wic.Types.{HeaderState, State}
use wic.Stream.{stream_write, stream_put_u8}
use wic.Inst.{Inst, with_rx}

-- `tolower`, in the C locale.
unfoldable pub tolower : ℕ → ℕ
tolower c = if leb b'A' c && leb c b'Z' then c + 32 else c

abbrev head_byte : List ℕ → ℕ
head_byte [] = 0
head_byte (c ∷ s) = c

abbrev tail_bytes : List ℕ → List ℕ
tail_bytes [] = []
tail_bytes (c ∷ s) = s

-- On two strings that are there. The end of a memory counts as a NUL.
unfoldable pub str_equal : List ℕ → List ℕ → Bool
unfolding tolower
str_equal [] s2 = tolower 0 == tolower (head_byte s2)
str_equal (c ∷ s1) s2 =
    let rest = str_equal s1 (tail_bytes s2) in
    if tolower c == tolower (head_byte s2) then (if c == 0 then true else rest) else false

-- `strcmp(s1, s2) == 0`
unfoldable pub strcmp_equal : List ℕ → List ℕ → Bool
strcmp_equal [] s2 = 0 == head_byte s2
strcmp_equal (c ∷ s1) s2 =
    let rest = strcmp_equal s1 (tail_bytes s2) in
    if c == head_byte s2 then (if c == 0 then true else rest) else false

-- The position behind the string at `pos` and its NUL.
unfoldable pub skip_string : List ℕ → ℕ → ℕ
skip_string mem pos = pos + strlen (drop pos mem) + 1

-- The loop of `wic_get_header` from `pos` on, with fuel; the value's position.
unfoldable pub find_header : ℕ → List ℕ → ℕ → List ℕ → ℕ → Option ℕ
unfolding skip_string
find_header zero mem end name pos = none
find_header (suc fuel) mem end name pos =
    let rest = find_header fuel mem end name (skip_string mem (skip_string mem pos)) in
    if ltb pos end
    then (if str_equal (drop pos mem) name then some (skip_string mem pos) else rest)
    else none

unfoldable pub is_ready : State → Bool
is_ready State.ready = true
is_ready _ = false

-- A round advances by two at least, so that as many rounds as there are bytes suffice.
unfoldable pub wic_get_header : Inst → List ℕ → Option ℕ
unfolding is_ready find_header
wic_get_header self name =
    if is_ready self.state
    then find_header (suc self.rx.s.pos) self.rx.s.mem self.rx.s.pos name 0
    else none

unfoldable pub wic_rewind_get_next_header : Inst → Inst
wic_rewind_get_next_header self = record self { pos = 0 }

-- The positions of the name and the value; the iterator is a `uint16_t`.
unfoldable pub wic_get_next_header : Inst → Option (ℕ × ℕ) × Inst
unfolding skip_string
wic_get_next_header self =
    if ltb self.pos self.rx.s.pos
    then (let value = u16 (skip_string self.rx.s.mem self.pos) in
        (some (self.pos, value), record self { pos = u16 (skip_string self.rx.s.mem value) }))
    else (none, self)

-- A header to send, each part none for NULL.
unfoldable pub wic_set_header : Inst → Option (List ℕ) → Option (List ℕ) → Bool × Inst
wic_set_header self (some name) (some value) =
    (true, record self { tx_header = record { name = name; value = value } ∷ self.tx_header })
wic_set_header self _ _ = (false, self)

-- `stream_write(&self->rx.s, at, length)`
unfoldable pub store_bytes : List ℕ → Inst → Inst
store_bytes bytes self = with_rx self (record (self.rx) { s = (stream_write self.rx.s bytes).1 })

-- `stream_put_u8(&self->rx.s, 0U)`
unfoldable pub store_nul : Inst → Inst
store_nul self = with_rx self (record (self.rx) { s = (stream_put_u8 self.rx.s 0).1 })

-- `switch(self->header_state)` of `on_header_field`.
unfoldable pub field_in_state : HeaderState → List ℕ → Inst → Inst
unfolding store_bytes store_nul
field_in_state HeaderState.value bytes self = store_bytes bytes (store_nul self)
field_in_state _ bytes self = store_bytes bytes self

-- The result says whether the callback fails.
unfoldable pub on_header_field : List ℕ → Inst → Bool × Inst
unfolding field_in_state
on_header_field bytes self = (
  false,
  record (field_in_state self.header_state bytes self) { header_state = HeaderState.field },
)

-- `switch(self->header_state)` of `on_header_value`.
unfoldable pub value_in_state : HeaderState → List ℕ → Inst → Bool × Inst
unfolding store_bytes store_nul
value_in_state HeaderState.idle bytes self = (true, self)
value_in_state HeaderState.field bytes self =
    (false, record (store_bytes bytes (store_nul self)) { header_state = HeaderState.value })
value_in_state HeaderState.value bytes self =
    (false, record (store_bytes bytes self) { header_state = HeaderState.value })

unfoldable pub on_header_value : List ℕ → Inst → Bool × Inst
unfolding value_in_state
on_header_value bytes self = value_in_state self.header_state bytes self
