-- ===== src/Port/Writes.antt =====
-- What the worker thread of the mbed port gives to the socket.
use wic.Base.{
  ℕ, zero, suc, ◌+◌, ◌-◌, ◌≤◌, ◌<◌, ◌≡◌, inl, inr, refl, sym, ap, ◌∙◌, Bool, true, false, none,
  some, List, [], ◌∷◌, ◌++◌, length, take, drop, append_assoc, ltb, ◌==◌, if◌then◌else◌, arith,
  Option-cases, Bool-cases, length-take, sub_size,
}
use wic.Stream.{Stream}
use wic.Http.{HttpParser, Url}
use wic.Port.Os.{Slot, EventFlags, MessageQueue, Mail, MemoryPool}
use wic.Port.Output.{OutputQueue, slot_buffer}
use wic.Port.Client.{Client, do_work, notify_writers}
use wic.Port.Thread.{Sent, next_chunk, take_sent, release_tx, write_socket}

take_nil : {A : Type 0} (n : ℕ) → take {A = A} n [] ≡ []
take_nil zero = refl
take_nil (suc n) = refl

drop_nil : {A : Type 0} (n : ℕ) → drop {A = A} n [] ≡ []
drop_nil zero = refl
drop_nil (suc n) = refl

take-split :
    {A : Type 0} (k m n : ℕ) (xs : List A)
    → k ≤ m
    → k ≤ n
    → take k (take m xs) ++ take (n - k) (drop k xs) ≡ take n xs
take-split zero m n xs h h' = let e : n - 0 ≡ n = omega arith in rw e refl
take-split (suc k) zero n xs h h' = absurd (omega arith)
take-split (suc k) (suc m) zero xs h h' = absurd (omega arith)
take-split (suc k) (suc m) (suc n) [] h h' = take_nil (suc n - suc k)
take-split (suc k) (suc m) (suc n) (x ∷ xs) h h' =
    let e : suc n - suc k ≡ n - k = omega arith in
    rw e (ap (◌∷◌ x) (take-split k m n xs (omega arith) (omega arith)))

drop-drop : {A : Type 0} (p k e : ℕ) (xs : List A) → p + k ≡ e → drop e xs ≡ drop k (drop p xs)
drop-drop zero k e xs h = let same : e ≡ k = omega arith in rw same refl
drop-drop (suc p) k zero xs h = absurd (omega arith)
drop-drop (suc p) k (suc e) [] h = sym (drop_nil k)
drop-drop (suc p) k (suc e) (x ∷ xs) h = drop-drop p k e xs (omega arith)

take_min :
    {A : Type 0} (k : ℕ) (xs : List A)
    → take k xs ≡ take (if ltb k (length xs) then k else length xs) xs
take_min zero xs = ground arith
take_min (suc k) [] = sym (take_nil (if ltb (suc k) 0 then suc k else 0))
take_min (suc k) (x ∷ xs) = ground (arith, take_min k xs)

module _ {F Q M P : Type 0} (flag : EventFlags F) (queue : MessageQueue Q) (mail : Mail M)
    (pool : MemoryPool P) (rand : ℕ → ℕ) (http : HttpParser) (undef_url : Url)
    (undef : Stream → Bool) (mss : ℕ) where
  abbrev chunk : Slot → Client F Q M P → List ℕ
  chunk slot c = next_chunk flag queue mail pool rand http undef_url undef mss slot c

  -- A socket that takes `k` bytes, or all where there are fewer.
  abbrev socket : ℕ → List ℕ → Sent
  socket k b = Sent.count (if ltb k (length b) then k else length b)

  abbrev write : ℕ → Client F Q M P → Client F Q M P
  write k c = write_socket flag queue mail pool rand http undef_url undef mss (socket k) c

  -- The bytes that the socket takes of what it is given.
  unfoldable pub taken : ℕ → Client F Q M P → List ℕ
  taken k c = elim c.worker.tx [ none ↦ [] | some slot ↦ take k (chunk slot c) ]

  -- The bytes of the buffer that are still to send.
  unfoldable pub unsent : Client F Q M P → List ℕ
  unsent c = elim c.worker.tx [
    | none ↦ []
    | some slot ↦
        let buf = slot_buffer c.tx_queue slot in
        take (buf.size - c.worker.tx_pos) (drop c.worker.tx_pos buf.mem)
  ]

  -- The bytes that the socket takes in a series of writes, and the client behind them.
  unfoldable pub writes : List ℕ → Client F Q M P → List ℕ × Client F Q M P
  unfolding taken
  writes [] c = ([], c)
  writes (k ∷ ks) c = let (bytes, c') = writes ks (write k c) in (taken k c ++ bytes, c')

  -- What has been sent of the buffer is not more than it.
  abbrev pub InBuffer : Client F Q M P → Type 0
  InBuffer c =
      (slot : Slot)
      → c.worker.tx ≡ some slot
      → (c.worker.tx_pos ≤ (slot_buffer c.tx_queue slot).size)
        × ((slot_buffer c.tx_queue slot).size < 18446744073709551616)

  -- The outcome of a write of `bytes`.
  abbrev Writes : List ℕ → Client F Q M P → Client F Q M P → Type 0
  Writes bytes c c' = (bytes ++ unsent c' ≡ unsent c) × InBuffer c'

  write-none : (k : ℕ) (c : Client F Q M P) → c.worker.tx ≡ none → write k c ≡ c
  unfolding write_socket
  write-none k c nothing = ground (arith, nothing)

  unsent-none : (c : Client F Q M P) → c.worker.tx ≡ none → unsent c ≡ []
  unfolding unsent
  unsent-none c nothing = rw (unsent, nothing) refl

  unsent-some :
      (slot : Slot) (c : Client F Q M P)
      → c.worker.tx ≡ some slot
      → unsent c
        ≡ take
            ((slot_buffer c.tx_queue slot).size - c.worker.tx_pos)
            (drop c.worker.tx_pos (slot_buffer c.tx_queue slot).mem)
  unfolding unsent
  unsent-some slot c there = rw (unsent, there) refl

  taken-none : (k : ℕ) (c : Client F Q M P) → c.worker.tx ≡ none → taken k c ≡ []
  unfolding taken
  taken-none k c nothing = rw (taken, nothing) refl

  taken-some :
      (k : ℕ) (slot : Slot) (c : Client F Q M P)
      → c.worker.tx ≡ some slot
      → taken k c ≡ take k (chunk slot c)
  unfolding taken next_chunk
  taken-some k slot c there = rw (taken, there) refl

  -- How many bytes the socket takes.
  abbrev count_of : ℕ → Slot → Client F Q M P → ℕ
  count_of k slot c = if ltb k (length (chunk slot c)) then k else length (chunk slot c)

  write_over :
      (k : ℕ) (slot : Slot) (c : Client F Q M P)
      → c.worker.tx ≡ some slot
      → (c.worker.tx_pos + count_of k slot c == (slot_buffer c.tx_queue slot).size) ≡ true
      → (write k c).worker.tx ≡ none
  unfolding write_socket take_sent release_tx do_work notify_writers
  write_over k slot c there over = rw (write_socket, there, over) refl

  write_more :
      (k : ℕ) (slot : Slot) (c : Client F Q M P)
      → c.worker.tx ≡ some slot
      → (c.worker.tx_pos + count_of k slot c == (slot_buffer c.tx_queue slot).size) ≡ false
      → ((write k c).worker.tx ≡ some slot)
        × ((write k c).worker.tx_pos ≡ c.worker.tx_pos + count_of k slot c)
        × ((write k c).tx_queue ≡ c.tx_queue)
  unfolding write_socket take_sent
  write_more k slot c there more = ground (arith, there, more)

  -- The bytes that are taken, and how many they are.
  taken_split :
      (k : ℕ) (slot : Slot) (c : Client F Q M P)
      → c.worker.tx ≡ some slot
      → InBuffer c
      → let n = count_of k slot c in
        let left = (slot_buffer c.tx_queue slot).size - c.worker.tx_pos in
        (n ≤ left)
        × (take k (chunk slot c)
              ++ take (left - n) (drop n (drop c.worker.tx_pos (slot_buffer c.tx_queue slot).mem))
            ≡ take left (drop c.worker.tx_pos (slot_buffer c.tx_queue slot).mem))
  unfolding next_chunk
  taken_split k slot c there inside =
      let buf = slot_buffer c.tx_queue slot in
      let pos = c.worker.tx_pos in
      let left = buf.size - pos in
      let xs = drop pos buf.mem in
      let wrapped = sub_size buf.size pos in
      let exact : wrapped ≡ left = omega (arith, inside slot there) in
      let most = if ltb mss wrapped then mss else wrapped in
      let n = count_of k slot c in
      let few : most ≤ left = ground (arith, exact) in
      let shorter = length-take most xs in
      let small : (n ≤ most) = ground (arith, shorter) in
      (
        omega (arith, small, few),
        ap (λ (b : List ℕ). b ++ take (left - n) (drop n xs)) (take_min k (chunk slot c))
            ∙ take-split n most left xs small (omega (arith, small, few)),
      )

  write_held :
      (k : ℕ) (slot : Slot) (c : Client F Q M P)
      → c.worker.tx ≡ some slot
      → InBuffer c
      → Writes (taken k c) c (write k c)
  write_held k slot c there inside =
      let buf = slot_buffer c.tx_queue slot in
      let pos = c.worker.tx_pos in
      let left = buf.size - pos in
      let xs = drop pos buf.mem in
      let n = count_of k slot c in
      let (enough, split) = taken_split k slot c there inside in
      elim (Bool-cases (pos + n == buf.size)) [
        | inl over ↦
            let closed = write_over k slot c there over in
            let none_left : 0 ≡ left - n = ground (arith, over) in
            (
              ap (λ (b : List ℕ). taken k c ++ b) (unsent-none (write k c) closed)
                  ∙ ap (λ (b : List ℕ). b ++ []) (taken-some k slot c there)
                  ∙ ap (λ (m : ℕ). take k (chunk slot c) ++ take m (drop n xs)) none_left
                  ∙ split
                  ∙ sym (unsent-some slot c there),
              λ other e. ground (arith, closed, e),
            )
        | inr more ↦
            let (held, moved, queue) = write_more k slot c there more in
            let shorter : buf.size - (pos + n) ≡ left - n = omega arith in
            let remains : unsent (write k c) ≡ take (left - n) (drop n xs) =
              unsent-some slot (write k c) held
              ∙ ap
                  (λ (q : OutputQueue F Q).
                    take ((slot_buffer q slot).size - (write k c).worker.tx_pos)
                      (drop (write k c).worker.tx_pos (slot_buffer q slot).mem))
                  queue
              ∙ ap (λ (p : ℕ). take (buf.size - p) (drop p buf.mem)) moved
              ∙ ap (λ (b : List ℕ). take (buf.size - (pos + n)) b)
                  (drop-drop pos n (pos + n) buf.mem refl)
              ∙ ap (λ (m : ℕ). take m (drop n xs)) shorter in
            (
              ap (λ (b : List ℕ). taken k c ++ b) remains
                  ∙ ap (λ (b : List ℕ). b ++ take (left - n) (drop n xs))
                      (taken-some k slot c there)
                  ∙ split
                  ∙ sym (unsent-some slot c there),
              λ other e.
                  let it : slot ≡ other = ground (arith, held, e) in
                  rw (← it, moved, queue)
                    (omega (arith, enough, inside slot there), (inside slot there).1),
            )
      ]

  write_lem : (k : ℕ) (c : Client F Q M P) → InBuffer c → Writes (taken k c) c (write k c)
  write_lem k c inside = elim (Option-cases c.worker.tx) [
    | inl nothing ↦
        let same = write-none k c nothing in
        (
          ap (λ (b : List ℕ). b ++ unsent (write k c)) (taken-none k c nothing) ∙ ap unsent same,
          rw same inside,
        )
    | inr (slot, there) ↦ write_held k slot c there inside
  ]

  writes_lem :
      (ks : List ℕ) (c : Client F Q M P) → InBuffer c → Writes (writes ks c).0 c (writes ks c).1
  unfolding writes
  writes_lem [] c inside = (refl, inside)
  writes_lem (k ∷ ks) c inside =
      let (first, inside') = write_lem k c inside in
      let (others, inside'') = writes_lem ks (write k c) inside' in
      (append_assoc (taken k c) _ _ ∙ ap (◌++◌ (taken k c)) others ∙ first, inside'')

-- However many bytes the socket takes at each write, the bytes that it has taken and those of the
-- buffer that are still to send are, together and in this order, what was to send at first: none is
-- lost, and none is sent twice.
pub writes_in_order :
    {F Q M P : Type 0} (flag : EventFlags F) (queue : MessageQueue Q) (mail : Mail M)
    (pool : MemoryPool P) (rand : ℕ → ℕ) (http : HttpParser) (undef_url : Url)
    (undef : Stream → Bool) (mss : ℕ) (ks : List ℕ) (c : Client F Q M P)
    → InBuffer flag queue mail pool rand http undef_url undef mss c
    → let (bytes, c') = writes flag queue mail pool rand http undef_url undef mss ks c in
      bytes ++ unsent flag queue mail pool rand http undef_url undef mss c'
      ≡ unsent flag queue mail pool rand http undef_url undef mss c
writes_in_order flag queue mail pool rand http undef_url undef mss ks c inside =
    (writes_lem flag queue mail pool rand http undef_url undef mss ks c inside).0
