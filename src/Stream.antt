-- ===== src/Stream.antt =====
-- kernel/stream.c and kernel/inc/stream.h: the ring buffer of 4096 bytes between an interrupt
-- handler and the code that waits for its bytes, and the stream built on it.
-- A pointer is its address and 0 is NULL. What an interrupt does while the code halts is an
-- argument: the bytes that handlers put during each `hlt` of a read, the bytes that a consumer
-- takes during each `hlt` of a write.
pub mod Ring
pub mod Transfer
mod Tests
use trs.Common.{
  ℕ, zero, suc, ◌+◌, ◌-◌, List, [], ◌∷◌, Bool, not, ◌||◌, Option, none, some, bit_and, u32, nonzero,
  ◌++◌, false, negsuc, has_bits, ◌==◌, ltb, if◌then◌else◌, get_or, set, length, ℤ, pos, minus_one,
}

abbrev pub stream_buffer_size : ℕ
stream_buffer_size = 4096

-- `ringbuf_t`
pub record Ringbuf : Type 0 where
  pub buf : List ℕ
  pub head : ℕ
  pub tail : ℕ

-- `stream_flags_t`
abbrev pub st_read : ℕ
st_read = 1

abbrev pub st_write : ℕ
st_write = 2

-- `stream_t`. Its two function pointers hold `stream_read` and `stream_write` from
-- `stream_init` on and are never changed.
pub record Stream : Type 0 where
  pub rb : Ringbuf
  pub flag : ℕ
  pub overflow : ℕ

-- The index after `i`, as both ends of the ring compute it.
abbrev pub next_index : ℕ → ℕ
next_index i = bit_and (u32 (i + 1)) (stream_buffer_size - 1)

-- `none` is the code -1; the ring is then as it was.
unfoldable pub ringbuf_put : Ringbuf → ℕ → Option Ringbuf
ringbuf_put rb c =
    if next_index rb.head == rb.tail
    then none
    else some (record { buf = set rb.buf rb.head c; head = next_index rb.head; tail = rb.tail })

-- `none` is the code -1; otherwise the byte that goes through `out`, and the ring.
unfoldable pub ringbuf_get : Ringbuf → Option (ℕ × Ringbuf)
ringbuf_get rb =
    if rb.tail == rb.head
    then none
    else some (get_or rb.buf rb.tail 0, record rb { tail = next_index rb.tail })

unfoldable pub stream_init : Stream → ℕ → Stream
stream_init s flags = record {
  rb = record { buf = s.rb.buf; head = 0; tail = 0 };
  flag = flags;
  overflow = 0;
}

-- The loop of `stream_try_read`, over the bytes still wanted: what it stores, and the ring.
unfoldable pub try_read_loop : ℕ → Ringbuf → List ℕ × Ringbuf
try_read_loop zero rb = ([], rb)
try_read_loop (suc k) rb = elim (ringbuf_get rb) [
  | none ↦ ([], rb)
  | some (c, rb') ↦ let r = try_read_loop k rb' in (c ∷ r.0, r.1)
]

-- The result, the bytes stored from `dst` on, and the stream.
unfoldable pub stream_try_read : Stream → ℕ → ℕ → ℤ × List ℕ × Stream
stream_try_read s dst len =
    if not (has_bits s.flag st_read) || dst == 0
    then (minus_one, [], s)
    else let r = try_read_loop len s.rb in (pos (length r.0), r.0, record s { rb = r.1 })

-- What one interrupt handler after another puts while the reader halts; a full ring drops a byte.
unfoldable pub deliver : Ringbuf → List ℕ → Ringbuf
deliver rb [] = rb
deliver rb (c ∷ cs) = elim (ringbuf_put rb c) [ none ↦ deliver rb cs | some rb' ↦ deliver rb' cs ]

-- How a blocking call ends: it returns, or it still halts when the interrupts given have come.
pub data Outcome (A : Type 0) : Type 0 where
  returned : A → Outcome A
  blocked : Outcome A
  out_of_fuel : Outcome A

abbrev pub prepend : List ℕ → Outcome (List ℕ × Stream) → Outcome (List ℕ × Stream)
prepend bytes (returned r) = returned (bytes ++ r.0, r.1)
prepend bytes blocked = blocked
prepend bytes out_of_fuel = out_of_fuel

abbrev pub positive : ℤ → Bool
positive (pos n) = nonzero n
positive (negsuc n) = false

-- The loop of `stream_read` with `got` bytes stored; `arrivals` are the bytes of each halt.
-- `got` grows by the result of `stream_try_read`, which is the number of bytes it stored.
unfoldable pub read_loop : ℕ → List (List ℕ) → ℕ → ℕ → ℕ → Stream → Outcome (List ℕ × Stream)
read_loop zero arrivals dst got len s = out_of_fuel
read_loop (suc fuel) arrivals dst got len s =
    let (n, bytes, s') = stream_try_read s (dst + got) (len - got) in
    let more = prepend bytes (read_loop fuel arrivals dst (got + length bytes) len s') in
    let halt : Outcome (List ℕ × Stream) = elim arrivals [
      | [] ↦ blocked
      | cs ∷ rest ↦ read_loop fuel rest dst got len (record s' { rb = deliver s'.rb cs })
    ] in
    if not (ltb got len) then returned ([], s) else if positive n then more else halt

-- Every turn of the loop stores a byte or halts.
unfoldable pub stream_read : List (List ℕ) → Stream → ℕ → ℕ → Outcome (List ℕ × Stream)
stream_read arrivals s dst len = read_loop (suc (len + length arrivals)) arrivals dst 0 len s

-- `k` bytes taken by the consumer while the writer halts.
unfoldable pub drain : ℕ → Ringbuf → Ringbuf
drain k rb = (try_read_loop k rb).1

-- The two loops of `stream_write` over the bytes left; `drains` are the takes of each halt.
unfoldable pub write_loop : List ℕ → List ℕ → Stream → Outcome Stream
write_loop [] drains s = returned s
write_loop (c ∷ cs) [] s = elim (ringbuf_put s.rb c) [
  | some rb ↦ write_loop cs [] (record s { rb = rb })
  | none ↦ blocked
]
write_loop (c ∷ cs) (d ∷ ds) s = elim (ringbuf_put s.rb c) [
  | some rb ↦ write_loop cs (d ∷ ds) (record s { rb = rb })
  | none ↦ write_loop (c ∷ cs) ds (record s { rb = drain d s.rb; overflow = u32 (s.overflow + 1) })
]

-- The result and the stream after writing the bytes `bytes` that stand at `src`.
unfoldable pub stream_write : List ℕ → Stream → ℕ → List ℕ → Outcome (ℤ × Stream)
stream_write drains s src bytes =
    if not (has_bits s.flag st_write) || src == 0
    then returned (minus_one, s)
    else elim (write_loop bytes drains s) [
      | returned s' ↦ returned (pos (length bytes), s')
      | blocked ↦ blocked
      | out_of_fuel ↦ out_of_fuel
    ]
