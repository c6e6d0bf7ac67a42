-- ===== src/Examples/Write.antt =====
-- What `transport_write` of examples/transport/transport.c hands to the system.
use wic.Base.{
  ℕ, zero, suc, ◌≤◌, ◌<◌, ◌≡◌, ◌⊎◌, inl, inr, refl, ◌∙◌, none, some, List, [], ◌∷◌, ◌++◌, arith,
  length, take, drop, sym, ap, take-append-drop, ◌≢◌, append-nil, append_assoc, Option-cases,
  length-drop,
}
use wic.Examples.Transport.{Sockets, Fd, write_loop, transport_write}

-- `write`, with the bytes that the system has taken: it takes the first ones, one at least, or fails
-- and takes none. `rand` takes none.
pub record IsWriter {N : Type 0} (sockets : Sockets N) (written : N → List ℕ) : Type 0 where
  pub takes :
      (fd : Fd) (bytes : List ℕ) (net : N) (k : ℕ)
      → (sockets.write fd bytes net).0 ≡ some k
      → (0 < k)
        × (k ≤ length bytes)
        × (written (sockets.write fd bytes net).1 ≡ written net ++ take k bytes)
  pub fails :
      (fd : Fd) (bytes : List ℕ) (net : N)
      → (sockets.write fd bytes net).0 ≡ none
      → written (sockets.write fd bytes net).1 ≡ written net
  pub draws : (net : N) → written (sockets.rand net).1 ≡ written net

-- No `write` of a byte or more fails.
abbrev pub NeverFails : {N : Type 0} → Sockets N → Fd → Type 0
NeverFails {N} sockets fd =
    (b : ℕ) (bytes : List ℕ) (net : N) → (sockets.write fd (b ∷ bytes) net).0 ≢ none

module _ {N : Type 0} (sockets : Sockets N) (written : N → List ℕ)
    (writer : IsWriter sockets written) where
  -- The bytes in front have been taken; the others are left because a `write` failed.
  abbrev pub Wrote : Fd → List ℕ → N → N → Type 0
  Wrote fd bytes net net' =
      (front rest : List ℕ) × (front ++ rest ≡ bytes)
      × (written net' ≡ written net ++ front)
      × ((rest ≡ []) ⊎ ((failed : N) × ((sockets.write fd rest failed).0 ≡ none)))

  write_loop-Wrote :
      (fuel : ℕ) (fd : Fd) (bytes : List ℕ) (net : N)
      → length bytes ≤ fuel
      → Wrote fd bytes net (write_loop sockets fuel fd bytes net)
  unfolding write_loop
  write_loop-Wrote zero fd [] net enough = ([], [], refl, sym (append-nil (written net)), inl refl)
  write_loop-Wrote zero fd (b ∷ bytes) net enough = absurd (omega arith)
  write_loop-Wrote (suc fuel) fd [] net enough =
      ([], [], refl, sym (append-nil (written net)), inl refl)
  write_loop-Wrote (suc fuel) fd (b ∷ bytes) net enough =
      let all = b ∷ bytes in
      let net1 = (sockets.write fd all net).1 in
      elim (Option-cases (sockets.write fd all net).0) [
        | inl failed ↦
            rw (failed, write_loop)
              (
                [],
                all,
                refl,
                writer.fails fd all net failed ∙ sym (append-nil (written net)),
                inr (net, failed),
              )
        | inr (k, took) ↦
            let (positive, within, now) = writer.takes fd all net k took in
            let (front, rest, joined, done, why) =
              write_loop-Wrote fuel fd (drop k all) net1 (omega (arith, length-drop k all)) in
            rw (took, write_loop)
              (
                take k all ++ front,
                rest,
                append_assoc (take k all) front rest
                    ∙ ap (λ (xs : List ℕ). take k all ++ xs) joined
                    ∙ take-append-drop k all,
                done
                    ∙ ap (λ (xs : List ℕ). xs ++ front) now
                    ∙ append_assoc (written net) (take k all) front,
                why,
              )
      ]

  -- The whole loop.
  pub transport_write-Wrote :
      (fd : Fd) (bytes : List ℕ) (net : N)
      → Wrote fd bytes net (transport_write sockets fd bytes net)
  unfolding transport_write
  transport_write-Wrote fd bytes net = write_loop-Wrote (length bytes) fd bytes net (omega arith)

  nothing_left :
      (fd : Fd) (rest : List ℕ)
      → NeverFails sockets fd
      → (rest ≡ []) ⊎ ((failed : N) × ((sockets.write fd rest failed).0 ≡ none))
      → rest ≡ []
  nothing_left fd [] sure why = refl
  nothing_left fd (b ∷ rest) sure (inl over) = over
  nothing_left fd (b ∷ rest) sure (inr (net, failed)) = absurd (sure b rest net failed)

  -- Then all bytes are taken.
  pub transport_write_all :
      (fd : Fd) (bytes : List ℕ) (net : N)
      → NeverFails sockets fd
      → written (transport_write sockets fd bytes net) ≡ written net ++ bytes
  transport_write_all fd bytes net sure =
      let (front, rest, joined, done, why) = transport_write-Wrote fd bytes net in
      let over = nothing_left fd rest sure why in
      done
      ∙ ap (λ (xs : List ℕ). written net ++ xs)
          (sym (append-nil front) ∙ ap (λ (xs : List ℕ). front ++ xs) (sym over) ∙ joined)

-- Of a system whose `write` takes the first bytes that it is given, one at least, or fails and takes
-- none: `transport_write` ends, and the bytes that the system has taken are the first ones of those it was
-- given, in order and once each; either these are all, or a `write` of the others failed.
pub transport_write_lem :
    {N : Type 0} (sockets : Sockets N) (written : N → List ℕ) (fd : Fd) (bytes : List ℕ) (net : N)
    → IsWriter sockets written
    → (front rest : List ℕ) × (front ++ rest ≡ bytes)
      × (written (transport_write sockets fd bytes net) ≡ written net ++ front)
      × ((rest ≡ []) ⊎ ((failed : N) × ((sockets.write fd rest failed).0 ≡ none)))
transport_write_lem sockets written fd bytes net writer =
    transport_write-Wrote sockets written writer fd bytes net
