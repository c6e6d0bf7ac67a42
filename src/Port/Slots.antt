-- ===== src/Port/Slots.antt =====
-- The buffers of the mbed port's output queue: who holds them, and what fits into them.
use wic.Base.{
  ℕ, ◌+◌, ◌≤◌, ◌≡◌, ◌≢◌, ◌⊎◌, inl, inr, refl, ◌∙◌, ap, Bool, true, false, not, ◌&&◌, ◌||◌, Option,
  none, some, List, [], ◌∷◌, arith, ◌==◌, bit_and, Bool-cases, Option-cases, leb,
}
use wic.Types.{Buffer, Opcode}
use wic.Frame.{min_frame_size}
use wic.Port.Buffers.{new_buffer}
use wic.Port.Os.{Slot, EventFlags, MessageQueue}
use wic.Port.Output.{
  OutputQueue, new_output, type_to_buf, slot_buffer, output_alloc, output_put, output_free,
  output_get,
}

unfoldable pub same : Slot → Slot → Bool
same Slot.user Slot.user = true
same Slot.close Slot.close = true
same Slot.ping Slot.ping = true
same Slot.pong Slot.pong = true
same _ _ = false

unfoldable pub mask_of : Slot → ℕ
mask_of Slot.user = 1
mask_of Slot.close = 2
mask_of Slot.ping = 4
mask_of Slot.pong = 8

-- The flag of a buffer is set.
abbrev pub is_set : {F : Type 0} → EventFlags F → F → Slot → Bool
is_set flag f slot = not (bit_and (mask_of slot) (flag.get f) == 0)

-- What mbed OS says of event flags: `set` sets the flags of its mask and `clear` clears them, and
-- both leave the others as they are.
pub record IsFlags {F : Type 0} (flag : EventFlags F) : Type 0 where
  pub set_flag :
      (a b : Slot) (f : F) → is_set flag (flag.set (mask_of b) f) a ≡ (same a b || is_set flag f a)
  pub clear_flag :
      (a b : Slot) (f : F)
      → is_set flag (flag.clear (mask_of b) f) a ≡ (not (same a b) && is_set flag f a)

-- What is done with an output queue.
pub data Use : Type 0 where
  allocs : Buffer → ℕ → Use
  frees : Slot → Use
  puts : Option Slot → Use
  gets : Use

-- It does not free the buffer.
unfoldable pub spares : Slot → Use → Bool
spares slot (Use.frees other) = not (same slot other)
spares slot _ = true

unfoldable pub spare_all : Slot → List Use → Bool
spare_all slot [] = true
spare_all slot (u ∷ uses) = spares slot u && spare_all slot uses

-- The masks that the constructor gives to the buffers, which nothing changes.
abbrev pub HasMasks : {F Q : Type 0} → OutputQueue F Q → Type 0
HasMasks q = (q.user.mask ≡ 1) × (q.close.mask ≡ 2) × (q.ping.mask ≡ 4) × (q.pong.mask ≡ 8)

or_true : (b : Bool) → (b || true) ≡ true
or_true true = refl
or_true false = refl

mask-slot_buffer :
    {F Q : Type 0} (q : OutputQueue F Q) (slot : Slot)
    → HasMasks q
    → (slot_buffer q slot).mask ≡ mask_of slot
unfolding slot_buffer mask_of
mask-slot_buffer q Slot.user (user, close, ping, pong) = user
mask-slot_buffer q Slot.close (user, close, ping, pong) = close
mask-slot_buffer q Slot.ping (user, close, ping, pong) = ping
mask-slot_buffer q Slot.pong (user, close, ping, pong) = pong

same_refl : (a : Slot) → same a a ≡ true
unfolding same
same_refl Slot.user = refl
same_refl Slot.close = refl
same_refl Slot.ping = refl
same_refl Slot.pong = refl

module _ {F Q : Type 0} (flag : EventFlags F) (queue : MessageQueue Q) where
  unfoldable pub use_once : Use → OutputQueue F Q → OutputQueue F Q
  use_once (Use.allocs type n) q = (output_alloc flag queue type n q).2
  use_once (Use.frees slot) q = output_free flag queue (some slot) q
  use_once (Use.puts slot) q = (output_put flag queue slot q).1
  use_once Use.gets q = (output_get flag queue q).2

  unfoldable pub use_all : List Use → OutputQueue F Q → OutputQueue F Q
  unfolding use_once
  use_all [] q = q
  use_all (u ∷ uses) q = use_all uses (use_once u q)

  abbrev pub is_held : Slot → OutputQueue F Q → Bool
  is_held slot q = is_set flag q.flags slot

module _ {F Q : Type 0} (flag : EventFlags F) (queue : MessageQueue Q) (law : IsFlags flag) where
  abbrev Held : Slot → OutputQueue F Q → Type 0
  Held slot q = HasMasks q × (is_held flag queue slot q ≡ true)

  -- A buffer that is handed out was free, and is held then; otherwise nothing changes.
  output_alloc_cases :
      (type : Buffer) (n : ℕ) (q : OutputQueue F Q)
      → HasMasks q
      → let slot = type_to_buf type in
        (is_held flag queue slot q ≡ false)
          × (output_alloc flag queue type n q
              ≡ (some slot, q.user.max, record q { flags = flag.set (mask_of slot) q.flags }))
        ⊎ (output_alloc flag queue type n q ≡ (none, q.user.max, q))
  unfolding output_alloc
  output_alloc_cases type n q masks =
      let slot = type_to_buf type in
      let room = n == 0 || leb n (slot_buffer q slot).max in
      let mask = mask-slot_buffer q slot masks in
      elim (Bool-cases (room && bit_and (slot_buffer q slot).mask (flag.get q.flags) == 0)) [
        | inr no_buffer ↦ inr (rw (output_alloc, no_buffer) refl)
        | inl handed ↦
            let free : is_held flag queue slot q ≡ false =
              let both : (room && bit_and (mask_of slot) (flag.get q.flags) == 0) ≡ true =
                rw (← mask) handed in
              ground (arith, both) in
            inl (free, rw (output_alloc, handed, mask) refl)
      ]

  use_once-Held :
      (slot : Slot) (u : Use) (q : OutputQueue F Q)
      → spares slot u ≡ true
      → Held slot q
      → Held slot (use_once flag queue u q)
  unfolding use_once spares output_free output_put output_get
  use_once-Held slot (Use.allocs type n) q s (masks, held) =
      elim (output_alloc_cases type n q masks) [
        | inl (free, handed) ↦
            rw (use_once, handed)
              (
                masks,
                law.set_flag slot (type_to_buf type) q.flags
                    ∙ ap (λ (b : Bool). same slot (type_to_buf type) || b) held
                    ∙ or_true (same slot (type_to_buf type)),
              )
        | inr refused ↦ rw (use_once, refused) (masks, held)
      ]
  use_once-Held slot (Use.frees other) q s (masks, held) =
      let mask = mask-slot_buffer q other masks in
      (masks, rw mask (law.clear_flag slot other q.flags ∙ ground (arith, s, held)))
  use_once-Held slot (Use.puts none) q s h = h
  use_once-Held slot (Use.puts (some other)) q s h = h
  use_once-Held slot Use.gets q s h = elim (Option-cases (queue.get q.queue).0) [
    | inl empty ↦ rw (use_once, output_get, empty) h
    | inr (none, poison) ↦ rw (use_once, output_get, poison) h
    | inr (some other, message) ↦ rw (use_once, output_get, message) h
  ]

  use_all-Held :
      (slot : Slot) (uses : List Use) (q : OutputQueue F Q)
      → spare_all slot uses ≡ true
      → Held slot q
      → Held slot (use_all flag queue uses q)
  unfolding use_all spare_all
  use_all-Held slot [] q s h = h
  use_all-Held slot (u ∷ uses) q s h =
      let first : spares slot u ≡ true = ground (arith, s) in
      let others : spare_all slot uses ≡ true = ground (arith, s) in
      use_all-Held slot uses (use_once flag queue u q) others (use_once-Held slot u q first h)

  alloc-Held :
      (type : Buffer) (n : ℕ) (q : OutputQueue F Q) (slot : Slot)
      → HasMasks q
      → (output_alloc flag queue type n q).0 ≡ some slot
      → (is_held flag queue slot q ≡ false) × Held slot (output_alloc flag queue type n q).2
  alloc-Held type n q slot masks got = elim (output_alloc_cases type n q masks) [
    | inr refused ↦ ground (arith, refused, got)
    | inl (free, handed) ↦
        let own = type_to_buf type in
        let it : own ≡ slot = ground (arith, handed, got) in
        let taken : is_set flag (flag.set (mask_of own) q.flags) own ≡ true =
          law.set_flag own own q.flags
          ∙ ap (λ (b : Bool). b || is_set flag q.flags own) (same_refl own) in
        rw (← it) (free, rw handed (masks, taken))
  ]

-- A buffer that the output queue hands out is not handed out again, whatever is done with the queue,
-- before it is freed: the application, the handlers and the socket never write to one buffer at a time.
pub output_alloc_once :
    {F Q : Type 0} (flag : EventFlags F) (queue : MessageQueue Q) (type other : Buffer) (n m : ℕ)
    (q : OutputQueue F Q) (slot : Slot) (uses : List Use)
    → IsFlags flag
    → HasMasks q
    → (output_alloc flag queue type n q).0 ≡ some slot
    → spare_all slot uses ≡ true
    → (output_alloc flag queue other m
        (use_all flag queue uses (output_alloc flag queue type n q).2)).0
      ≢ some slot
output_alloc_once flag queue type other n m q slot uses law masks got spared again =
    let (free, held) = alloc-Held flag queue law type n q slot masks got in
    let q1 = (output_alloc flag queue type n q).2 in
    let later = use_all-Held flag queue law slot uses q1 spared held in
    let (free', held') =
      alloc-Held flag queue law other m (use_all flag queue uses q1) slot later.0 again in
    ground (arith, free', later.1)

-- The frames that the library asks a client's output queue for: of a message of `tx` bytes at most, of
-- a close with a reason, and of a pong.
pub data Asks (tx : ℕ) : Buffer → ℕ → Type 0 where
  message : (n : ℕ) → n ≤ tx → Asks tx Buffer.user (min_frame_size Opcode.binary true n)
  text : (n : ℕ) → n ≤ tx → Asks tx Buffer.user (min_frame_size Opcode.text true n)
  close : (n : ℕ) → n ≤ 123 → Asks tx Buffer.close (min_frame_size Opcode.close true n)
  answer : (n : ℕ) → n ≤ 123 → Asks tx Buffer.close_response (min_frame_size Opcode.close true n)
  pong : (n : ℕ) → n ≤ 125 → Asks tx Buffer.pong (min_frame_size Opcode.pong true n)

Asks-fits :
    {F Q : Type 0} (tx : ℕ) (flags : F) (queue : Q) (type : Buffer) (n : ℕ)
    → Asks tx type n
    → n ≤ (slot_buffer (new_output (tx + 14) flags queue) (type_to_buf type)).max
unfolding min_frame_size slot_buffer type_to_buf new_output new_buffer
Asks-fits tx flags queue _ _ (Asks.message n h) = ground (arith, h)
Asks-fits tx flags queue _ _ (Asks.text n h) = ground (arith, h)
Asks-fits tx flags queue _ _ (Asks.close n h) = ground (arith, h)
Asks-fits tx flags queue _ _ (Asks.answer n h) = ground (arith, h)
Asks-fits tx flags queue _ _ (Asks.pong n h) = ground (arith, h)

-- The buffers of `Client<RX_MAX, TX_MAX>` are large enough: the output queue that it makes, TX_MAX + 14
-- bytes for the user, has a buffer for each message of TX_MAX bytes or less, each close and each pong,
-- as long as the buffer is not held.
pub output_alloc-fits :
    {F Q : Type 0} (flag : EventFlags F) (queue : MessageQueue Q) (tx n : ℕ) (flags : F) (sent : Q)
    (type : Buffer)
    → Asks tx type n
    → is_held flag queue (type_to_buf type) (new_output (tx + 14) flags sent) ≡ false
    → (output_alloc flag queue type n (new_output (tx + 14) flags sent)).0 ≡ some (type_to_buf type)
unfolding output_alloc
output_alloc-fits {F = F} {Q = Q} flag queue tx n flags sent type asks free =
    let q : OutputQueue F Q = new_output (tx + 14) flags sent in
    let masks : HasMasks q = unfold new_output new_buffer in (refl, refl, refl, refl) in
    let mask = mask-slot_buffer q (type_to_buf type) masks in
    let free' : (bit_and (slot_buffer q (type_to_buf type)).mask (flag.get q.flags) == 0) ≡ true =
      rw mask (unfold new_output in ground (arith, free)) in
    ground (arith, free', Asks-fits tx flags sent type n asks)
