-- ===== src/Port/Inputs.antt =====
-- template class InputQueue of port/mbed/wic_input_queue.h.
use wic.Base.{ℕ, Option, none, some, ◌==◌, if◌then◌else◌}
use wic.Port.Buffers.{BufferBase, new_buffer}
use wic.Port.Os.{Mail}

-- `blocks` is the memory of the mail's blocks, and `block_size` is SIZE.
pub record InputQueue (M : Type 0) : Type 0 where
  pub mail : M
  pub blocks : ℕ → BufferBase
  pub block_size : ℕ

unfoldable pub set_block : {M : Type 0} → ℕ → BufferBase → InputQueue M → InputQueue M
set_block p b self = record self { blocks = λ k. if k == p then b else self.blocks k }

module _ {M : Type 0} (os : Mail M) where
  -- A block is constructed anew.
  unfoldable pub input_alloc : InputQueue M → Option ℕ × InputQueue M
  unfolding set_block new_buffer
  input_alloc self =
      let (block, mail) = os.alloc self.mail in
      let self' = record self { mail = mail } in
      elim block [
        | none ↦ (none, self')
        | some p ↦ (some p, set_block p (new_buffer self.block_size 0 0) self')
      ]

  unfoldable pub input_free : ℕ → InputQueue M → InputQueue M
  input_free p self = record self { mail = os.free p self.mail }

  unfoldable pub input_put : ℕ → InputQueue M → InputQueue M
  input_put p self = record self { mail = os.put p self.mail }

  unfoldable pub input_get : InputQueue M → Option ℕ × InputQueue M
  input_get self = let (p, mail) = os.get self.mail in (p, record self { mail = mail })
