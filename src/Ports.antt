-- ===== src/Ports.antt =====
-- kernel/inc/io.h: the port instructions. The hardware's answers are given in the order in which
-- they are read; every access is logged, the latest first.
use trs.Common.{ℕ, ◌+◌, List, [], ◌∷◌, u8, u16}

pub data PortOp : Type 0 where
  in8 : ℕ → PortOp
  out8 : ℕ → ℕ → PortOp
  in16 : ℕ → PortOp
  out16 : ℕ → ℕ → PortOp

-- `answer n` is the n-th value that the hardware gives; `reads` values have been read.
pub record World : Type 0 where
  pub answer : ℕ → ℕ
  pub reads : ℕ
  pub log : List PortOp

unfoldable pub inb : ℕ → World → ℕ × World
inb port w = (u8 (w.answer w.reads), record w { reads = w.reads + 1; log = in8 port ∷ w.log })

unfoldable pub inw : ℕ → World → ℕ × World
inw port w = (u16 (w.answer w.reads), record w { reads = w.reads + 1; log = in16 port ∷ w.log })

unfoldable pub outb : ℕ → ℕ → World → World
outb port byte w = record w { log = out8 port (u8 byte) ∷ w.log }

unfoldable pub outw : ℕ → ℕ → World → World
outw value port w = record w { log = out16 port (u16 value) ∷ w.log }

-- What was written to ports, byte by byte and word by word, the latest first.
unfoldable pub outputs : List PortOp → List PortOp
outputs [] = []
outputs (in8 p ∷ l) = outputs l
outputs (in16 p ∷ l) = outputs l
outputs (out8 p v ∷ l) = out8 p v ∷ outputs l
outputs (out16 p v ∷ l) = out16 p v ∷ outputs l
