-- ===== src/Stream/Tests.antt =====
-- Runs of the stream on small inputs, and the theorems at concrete rings.
use trs.Common.{ℕ, [], ◌∷◌, ◌≡◌, refl, arith, replicate, length-replicate, pos}
use trs.Stream.{Ringbuf, Stream, returned, stream_read, stream_write}
use trs.Stream.Ring.{IsValid, contents, put, get, run_calls, run_queue, run_calls_refines}
use trs.Stream.Transfer.{Reads, stream_read-Reads, stream_write_lem}

-- The ring of `stream_init`, with its head and tail at `i`.
abbrev ring_at : ℕ → Ringbuf
ring_at i = record { buf = replicate 4096 0; head = i; tail = i }

abbrev reader : Stream
reader = record { rb = ring_at 4095; flag = 1; overflow = 0 }

abbrev writer : Stream
writer = record { rb = ring_at 4095; flag = 2; overflow = 0 }

ring_at-IsValid : IsValid (ring_at 4095)
ring_at-IsValid = record {
  storage = length-replicate {A = ℕ} 4096 0;
  head_in = omega arith;
  tail_in = omega arith;
}

run_calls_refines_example :
    run_calls (ring_at 4095) (put 7 ∷ put 8 ∷ get ∷ get ∷ get ∷ [])
    ≡ run_queue [] (put 7 ∷ put 8 ∷ get ∷ get ∷ get ∷ [])
run_calls_refines_example = run_calls_refines (put 7 ∷ put 8 ∷ get ∷ get ∷ get ∷ []) ring_at-IsValid

stream_read-Reads_example :
    Reads (5 ∷ 6 ∷ 7 ∷ []) (stream_read ((5 ∷ []) ∷ (6 ∷ 7 ∷ 8 ∷ []) ∷ []) reader 100 3)
stream_read-Reads_example =
    stream_read-Reads ((5 ∷ []) ∷ (6 ∷ 7 ∷ 8 ∷ []) ∷ []) reader 100 3 ring_at-IsValid refl
      (omega arith) (omega arith) (omega arith)

stream_write_lem_example :
    (t : Stream) × (stream_write [] writer 100 (1 ∷ 2 ∷ []) ≡ returned (pos 2, t))
    × (contents t.rb ≡ 1 ∷ 2 ∷ [])
    × IsValid t.rb
    × (t.overflow ≡ 0)
stream_write_lem_example =
    stream_write_lem [] writer 100 (1 ∷ 2 ∷ []) ring_at-IsValid refl (omega arith) (omega arith)
