-- ===== src/Examples/Fields.antt =====
-- The loop of `on_open_handler` of examples/demo_client/demo_client.c over the header fields.
use wic.Base.{
  ℕ, zero, suc, ◌+◌, ◌-◌, ◌≤◌, ◌<◌, ◌≡◌, refl, ap, ◌∙◌, Option, none, some, List, [], ◌∷◌, arith,
  length, drop, strlen, u16, length-drop, Option-cases, inl, inr,
}
use wic.Inst.{Inst, RxFrame}
use wic.Headers.{wic_get_next_header, skip_string}
use wic.Examples.Demo.{skip_headers}

strlen-le : (xs : List ℕ) → strlen xs ≤ length xs
unfolding strlen
strlen-le [] = omega arith
strlen-le (x ∷ xs) = ground (arith, strlen-le xs)

skip_string-le :
    (mem : List ℕ) (pos : ℕ)
    → (pos < skip_string mem pos) × (skip_string mem pos ≤ pos + (length mem - pos) + 1)
unfolding skip_string
skip_string-le mem pos = (omega arith, omega (arith, strlen-le (drop pos mem), length-drop pos mem))

-- A field that is read moves the iterator on.
wic_get_next_header-some :
    (self : Inst) (at : ℕ × ℕ) (self' : Inst)
    → length self.rx.s.mem < 65000
    → self.rx.s.pos ≤ length self.rx.s.mem
    → wic_get_next_header self ≡ (some at, self')
    → (self'.rx ≡ self.rx) × (self.pos < self.rx.s.pos) × (self.pos < self'.pos)
unfolding wic_get_next_header
wic_get_next_header-some self at self' small held e =
    let first = skip_string-le self.rx.s.mem self.pos in
    let value = u16 (skip_string self.rx.s.mem self.pos) in
    ground (arith, e, first, skip_string-le self.rx.s.mem value)

wic_get_next_header-none :
    (self : Inst) → (wic_get_next_header self).0 ≡ none → (wic_get_next_header self).1 ≡ self
unfolding wic_get_next_header
wic_get_next_header-none self e = ground (arith, e)

skip_headers-none :
    (fuel : ℕ) (self : Inst)
    → (wic_get_next_header self).0 ≡ none
    → skip_headers (suc fuel) self ≡ self
unfolding skip_headers
skip_headers-none fuel self e = rw (e, skip_headers) (wic_get_next_header-none self e)

skip_headers-some :
    (fuel : ℕ) (self : Inst) (at : ℕ × ℕ)
    → (wic_get_next_header self).0 ≡ some at
    → skip_headers (suc fuel) self ≡ skip_headers fuel (wic_get_next_header self).1
unfolding skip_headers
skip_headers-some fuel self at e = rw (e, skip_headers) refl

skip_headers_ends :
    (fuel : ℕ) (self : Inst)
    → length self.rx.s.mem < 65000
    → self.rx.s.pos ≤ length self.rx.s.mem
    → self.rx.s.pos - self.pos < fuel
    → ((wic_get_next_header (skip_headers fuel self)).0 ≡ none)
      × ((skip_headers fuel self).rx ≡ self.rx)
skip_headers_ends zero self small held enough = absurd (omega arith)
skip_headers_ends (suc fuel) self small held enough =
    elim (Option-cases (wic_get_next_header self).0) [
      | inl over ↦ rw (skip_headers-none fuel self over) (over, refl)
      | inr (at, more) ↦
          let next = (wic_get_next_header self).1 in
          let (same, inside, on) =
            wic_get_next_header-some self at next small held
              (ap (λ (x : Option (ℕ × ℕ)). (x, next)) more) in
          let size : length next.rx.s.mem ≡ length self.rx.s.mem =
            ap (λ (r : RxFrame). length r.s.mem) same in
          let end : next.rx.s.pos ≡ self.rx.s.pos = ap (λ (r : RxFrame). r.s.pos) same in
          let rest =
            skip_headers_ends fuel next (omega (arith, size)) (omega (arith, size, end))
              (omega (arith, end)) in
          rw (skip_headers-some fuel self at more) (rest.0, rest.1 ∙ same)
    ]

-- The loop of the demo client over the header fields ends for any receive buffer that holds what was
-- stored and has less than 65000 bytes: no field is left behind it, and the receiver is as before.
pub skip_headers_lem :
    (self : Inst)
    → length self.rx.s.mem < 65000
    → self.rx.s.pos ≤ length self.rx.s.mem
    → let self' = skip_headers (suc self.rx.s.pos) self in
      ((wic_get_next_header self').0 ≡ none) × (self'.rx ≡ self.rx)
skip_headers_lem self small held =
    skip_headers_ends (suc self.rx.s.pos) self small held (omega arith)
