-- ===== src/Port/Queue.antt =====
-- The input queue of the mbed port as what it stands for: the messages that wait, in their order.
use wic.Base.{
  ℕ, ◌≤◌, ◌<◌, ◌≡◌, inl, inr, refl, ap, ◌∙◌, Bool, true, false, not, ◌&&◌, none, some, List, [],
  ◌∷◌, ◌++◌, length, take, arith, Option-cases, ◌==◌, leb, replicate, length-replicate,
  take-write_at, ltb, if◌then◌else◌, zero, suc,
}
use wic.Types.{Encoding}
use wic.Port.Buffers.{BufferBase, new_buffer, buffer_init}
use wic.Port.Os.{EventFlags, MessageQueue, Mail}
use wic.Port.Inputs.{InputQueue, input_alloc, input_put, input_get, input_free, set_block}
use wic.Port.Client.{Client, handle_message, notify_readers, do_work}
use wic.Port.Jobs.{flush_loop, flush_input_queue}
use wic.Port.Calls.{try_get}

unfoldable pub absent : ℕ → List ℕ → Bool
absent p [] = true
absent p (k ∷ ks) = not (k == p) && absent p ks

-- What mbed OS says of a mail: `content` is the blocks that were put and not got, in this order. A
-- block that `alloc` returns is none of them.
pub record IsMail {M : Type 0} (mail : Mail M) (content : M → List ℕ) : Type 0 where
  pub alloc_keeps : (m : M) → content (mail.alloc m).1 ≡ content m
  pub alloc_fresh : (m : M) (p : ℕ) → (mail.alloc m).0 ≡ some p → absent p (content m) ≡ true
  pub put_last : (p : ℕ) (m : M) → content (mail.put p m) ≡ content m ++ (p ∷ [])
  pub get_none : (m : M) → content m ≡ [] → ((mail.get m).0 ≡ none) × (content (mail.get m).1 ≡ [])
  pub get_first :
      (m : M) (p : ℕ) (ps : List ℕ)
      → content m ≡ p ∷ ps
      → ((mail.get m).0 ≡ some p) × (content (mail.get m).1 ≡ ps)
  pub free_keeps : (p : ℕ) (m : M) → content (mail.free p m) ≡ content m
  pub pending_length : (m : M) → mail.pending m ≡ length (content m)

abbrev pub Message : Type 0
Message = Encoding × Bool × List ℕ

-- The message in a block.
abbrev pub message_of : BufferBase → Message
message_of b = (b.encoding, b.fin, take b.size b.mem)

unfoldable pub messages_of : (ℕ → BufferBase) → List ℕ → List Message
messages_of blocks [] = []
messages_of blocks (p ∷ ps) = message_of (blocks p) ∷ messages_of blocks ps

messages_of-append :
    (blocks : ℕ → BufferBase) (ps : List ℕ) (p : ℕ)
    → messages_of blocks (ps ++ (p ∷ [])) ≡ messages_of blocks ps ++ (message_of (blocks p) ∷ [])
unfolding messages_of
messages_of-append blocks [] p = refl
messages_of-append blocks (k ∷ ps) p =
    ap (◌∷◌ (message_of (blocks k))) (messages_of-append blocks ps p)

-- A block that is not there may change.
messages_of-set_block :
    {M : Type 0} (p : ℕ) (b : BufferBase) (q : InputQueue M) (ps : List ℕ)
    → absent p ps ≡ true
    → messages_of (set_block p b q).blocks ps ≡ messages_of q.blocks ps
unfolding messages_of set_block absent
messages_of-set_block p b q [] h = refl
messages_of-set_block p b q (k ∷ ps) h = ground (arith, h, messages_of-set_block p b q ps)

-- What the input queue holds.
abbrev pub waiting : {F Q M P : Type 0} → (M → List ℕ) → Client F Q M P → List Message
waiting content c = messages_of c.input_queue.blocks (content c.input_queue.mail)

-- A message that fits a new block is what the block holds.
filled :
    (n : ℕ) (b : List ℕ) (e : Encoding) (fin : Bool)
    → length b ≤ n
    → message_of (buffer_init b e fin (new_buffer n 0 0)).1 ≡ (e, fin, b)
unfolding buffer_init new_buffer
filled n b e fin h =
    let fits : leb (length b) n ≡ true = ground (arith, h) in
    rw (buffer_init, fits)
      (ap (λ (m : List ℕ). (e, fin, m))
        (take-write_at (replicate n 0) 0 b (length b) (omega arith)
          (rw (length-replicate {A = ℕ} n 0) h)))

take-take :
    {A : Type 0} (n m : ℕ) (xs : List A) → take (if ltb m n then m else n) xs ≡ take m (take n xs)
take-take n zero xs = ground arith
take-take zero (suc m) xs = ground arith
take-take (suc n) (suc m) [] = ground arith
take-take (suc n) (suc m) (x ∷ xs) = ground (arith, take-take n m xs)

set_block-same :
    {M : Type 0} (p : ℕ) (b : BufferBase) (q : InputQueue M) → (set_block p b q).blocks p ≡ b
unfolding set_block
set_block-same p b q = ground arith

input_alloc-some :
    {M : Type 0} (mail : Mail M) (q : InputQueue M) (p : ℕ)
    → (input_alloc mail q).0 ≡ some p
    → ((mail.alloc q.mail).0 ≡ some p)
      × ((input_alloc mail q).1
          ≡ set_block p (new_buffer q.block_size 0 0) (record q { mail = (mail.alloc q.mail).1 }))
unfolding input_alloc
input_alloc-some mail q p got = elim (Option-cases (mail.alloc q.mail).0) [
  | inl none_left ↦ ground (arith, got, none_left)
  | inr (k, there) ↦
      let same : k ≡ p = ground (arith, got, there) in
      let there' = there ∙ ap some same in (there', rw (input_alloc, there') refl)
]

input_alloc-none :
    {M : Type 0} (mail : Mail M) (content : M → List ℕ) (q : InputQueue M)
    → IsMail mail content
    → (input_alloc mail q).0 ≡ none
    → messages_of (input_alloc mail q).1.blocks (content (input_alloc mail q).1.mail)
      ≡ messages_of q.blocks (content q.mail)
unfolding input_alloc
input_alloc-none mail content q law full = elim (Option-cases (mail.alloc q.mail).0) [
  | inl none_left ↦ rw (input_alloc, none_left) (ap (messages_of q.blocks) (law.alloc_keeps q.mail))
  | inr (k, there) ↦ ground (arith, full, there)
]

-- The block is filled and put: its message waits behind the others.
put_message :
    {M : Type 0} (mail : Mail M) (content : M → List ℕ) (p : ℕ) (e : Encoding) (fin : Bool)
    (b : List ℕ) (q : InputQueue M)
    → IsMail mail content
    → (input_alloc mail q).0 ≡ some p
    → length b ≤ q.block_size
    → let q1 = (input_alloc mail q).1 in
      let q2 = input_put mail p (set_block p (buffer_init b e fin (q1.blocks p)).1 q1) in
      messages_of q2.blocks (content q2.mail)
      ≡ messages_of q.blocks (content q.mail) ++ ((e, fin, b) ∷ [])
unfolding input_put set_block
put_message mail content p e fin b q law got fits =
    let (there, q1_eq) = input_alloc-some mail q p got in
    let fresh = new_buffer q.block_size 0 0 in
    let q0 = record q { mail = (mail.alloc q.mail).1 } in
    let q1 = set_block p fresh q0 in
    let b1 = (buffer_init b e fin (q1.blocks p)).1 in
    let q2 = set_block p b1 q1 in
    let ps = content q0.mail in
    let kept : ps ≡ content q.mail = law.alloc_keeps q.mail in
    let there_not : absent p ps ≡ true = rw kept (law.alloc_fresh q.mail p there) in
    let last : message_of (q2.blocks p) ≡ (e, fin, b) =
      ap message_of (set_block-same p b1 q1)
      ∙ ap (λ (x : BufferBase). message_of (buffer_init b e fin x).1) (set_block-same p fresh q0)
      ∙ filled q.block_size b e fin fits in
    let front : messages_of q2.blocks ps ≡ messages_of q.blocks ps =
      messages_of-set_block p b1 q1 ps there_not ∙ messages_of-set_block p fresh q0 ps there_not in
    rw q1_eq (
      ap (messages_of q2.blocks) (law.put_last p q0.mail)
      ∙ messages_of-append q2.blocks ps p
      ∙ ap (λ (x : List Message). x ++ (message_of (q2.blocks p) ∷ [])) front
      ∙ ap (λ (y : Message). messages_of q.blocks ps ++ (y ∷ [])) last
      ∙ ap (λ (ks : List ℕ). messages_of q.blocks ks ++ ((e, fin, b) ∷ [])) kept)

-- Whether the operating system has a block free.
abbrev pub has_block : {M : Type 0} → Mail M → M → Bool
has_block mail m = elim (mail.alloc m).0 [ none ↦ false | some p ↦ true ]

has_block-some :
    {M : Type 0} (mail : Mail M) (q : InputQueue M) (p : ℕ)
    → (input_alloc mail q).0 ≡ some p
    → true ≡ has_block mail q.mail
has_block-some mail q p got = ground (arith, (input_alloc-some mail q p got).0)

has_block-none :
    {M : Type 0} (mail : Mail M) (q : InputQueue M)
    → (input_alloc mail q).0 ≡ none
    → false ≡ has_block mail q.mail
unfolding input_alloc
has_block-none mail q full = elim (Option-cases (mail.alloc q.mail).0) [
  | inl none_left ↦ ground (arith, none_left)
  | inr (k, there) ↦ ground (arith, full, there)
]

-- The input queue is a queue of messages. A message of the peer that is no longer than the blocks is
-- taken exactly where a block is free, and waits behind the others; where none is free it is refused,
-- and what waits stays.
pub handle_message-waiting :
    {F Q M P : Type 0} (flag : EventFlags F) (queue : MessageQueue Q) (mail : Mail M) (rand : ℕ → ℕ)
    (content : M → List ℕ) (e : Encoding) (fin : Bool) (b : List ℕ) (c : Client F Q M P)
    → IsMail mail content
    → length b ≤ c.input_queue.block_size
    → let (taken, c') = handle_message flag queue mail rand e fin b c in
      (taken ≡ has_block mail c.input_queue.mail)
      × (waiting content c'
          ≡ (if taken then waiting content c ++ ((e, fin, b) ∷ []) else waiting content c))
unfolding handle_message notify_readers
handle_message-waiting flag queue mail rand content e fin b c law fits =
    elim (Option-cases (input_alloc mail c.input_queue).0) [
      | inl full ↦
          rw (handle_message, full)
            (
              has_block-none mail c.input_queue full,
              input_alloc-none mail content c.input_queue law full,
            )
      | inr (p, got) ↦
          rw (handle_message, got)
            (
              has_block-some mail c.input_queue p got,
              put_message mail content p e fin b c.input_queue law got fits,
            )
    ]

first_of :
    (blocks : ℕ → BufferBase) (ps : List ℕ) (first : Message) (rest : List Message)
    → messages_of blocks ps ≡ first ∷ rest
    → (p : ℕ) × (qs : List ℕ) × (ps ≡ p ∷ qs)
      × (message_of (blocks p) ≡ first)
      × (messages_of blocks qs ≡ rest)
unfolding messages_of
first_of blocks [] first rest e = ground (arith, e)
first_of blocks (p ∷ ps) first rest e = (p, ps, refl, ground (arith, e), ground (arith, e))

-- The message that waits first is what the application gets, cut to the size of its buffer, and it
-- waits no more.
pub try_get-waiting :
    {F Q M P : Type 0} (mail : Mail M) (content : M → List ℕ) (max : ℕ) (c : Client F Q M P)
    (first : Message) (rest : List Message)
    → IsMail mail content
    → waiting content c ≡ first ∷ rest
    → let (r, c') = try_get mail max c in
      (r.message ≡ some (first.0, first.1, take max first.2)) × (waiting content c' ≡ rest)
unfolding try_get input_get input_free do_work
try_get-waiting mail content max c first rest law e =
    let q = c.input_queue in
    let (p, ps, shape, head, tail) = first_of q.blocks (content q.mail) first rest e in
    let (got, left) = law.get_first q.mail p ps shape in
    let freed : content (mail.free p (mail.get q.mail).1) ≡ ps =
      law.free_keeps p (mail.get q.mail).1 ∙ left in
    let b = q.blocks p in
    rw (try_get, got)
      (
        ap (λ (x : List ℕ). some (b.encoding, b.fin, x)) (take-take b.size max b.mem)
            ∙ ap (λ (m : Message). some (m.0, m.1, take max m.2)) head,
        ap (messages_of q.blocks) freed ∙ tail,
      )

flush_loop-content :
    {M : Type 0} (mail : Mail M) (content : M → List ℕ) (fuel : ℕ) (q : InputQueue M) (ps : List ℕ)
    → IsMail mail content
    → content q.mail ≡ ps
    → length ps < fuel
    → (q' : InputQueue M) × (flush_loop mail fuel q ≡ some q') × (content q'.mail ≡ [])
unfolding flush_loop input_get input_free
flush_loop-content mail content zero q ps law e h = absurd (omega arith)
flush_loop-content mail content (suc fuel) q [] law e h =
    let (nothing, empty) = law.get_none q.mail e in rw (flush_loop, nothing) (_, refl, empty)
flush_loop-content mail content (suc fuel) q (p ∷ ps) law e h =
    let (got, left) = law.get_first q.mail p ps e in
    let q' = record q { mail = mail.free p (mail.get q.mail).1 } in
    rw (flush_loop, got)
      (flush_loop-content mail content fuel q' ps law (law.free_keeps p (mail.get q.mail).1 ∙ left)
        (omega (arith, h)))

-- Flushing the input queue ends, and leaves no message.
pub flush_input_queue-waiting :
    {F Q M P : Type 0} (flag : EventFlags F) (queue : MessageQueue Q) (mail : Mail M) (rand : ℕ → ℕ)
    (content : M → List ℕ) (c : Client F Q M P)
    → IsMail mail content
    → (c' : Client F Q M P) × (flush_input_queue flag queue mail rand c ≡ some c')
      × (waiting content c' ≡ [])
unfolding flush_input_queue messages_of
flush_input_queue-waiting flag queue mail rand content c law =
    let q = c.input_queue in
    let fuel = suc (mail.pending q.mail) in
    let enough : length (content q.mail) < fuel = rw (law.pending_length q.mail) (omega arith) in
    let (q', flushed, empty) =
      flush_loop-content mail content fuel q (content q.mail) law refl enough in
    rw (flush_input_queue, flushed)
      (record c { input_queue = q' }, refl, ap (messages_of q'.blocks) empty)
