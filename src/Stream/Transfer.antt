-- ===== src/Stream/Transfer.antt =====
-- What the loops of kernel/stream.c move: reads take a prefix of the waiting bytes, interrupts
-- and writes append to them.
use trs.Common.{
  ℕ, zero, suc, ◌+◌, ◌-◌, ◌≤◌, ◌<◌, ◌≡◌, refl, sym, ◌∙◌, ap, ◌≢◌, ◌⊎◌, inl, inr, List, [], ◌∷◌,
  ◌++◌, true, false, arith, ◌==◌, length, take, drop, length-append, length-take, length-drop, ℤ,
  pos, ltb, has_bits, not, ◌||◌,
}
use mathlib.Core.List.{append-nil, append_assoc}
use trs.Stream.{
  Ringbuf, Stream, Outcome, returned, blocked, out_of_fuel, st_read, st_write, try_read_loop,
  stream_try_read, deliver, read_loop, stream_read, write_loop, stream_write, prepend, positive,
}
use trs.Stream.Ring.{
  IsValid, contents, put-IsValid, get-IsValid, put_cases, get_cases, queue_put-eq-some,
  queue_put-eq-none,
}

-- The loop takes the first `k` waiting bytes and leaves the others.
pub record Taken (k : ℕ) (rb : Ringbuf) (r : List ℕ × Ringbuf) : Type 0 where
  pub bytes : r.0 ≡ take k (contents rb)
  pub rest : contents r.1 ≡ drop k (contents rb)
  pub valid : IsValid r.1

take-nil : (k : ℕ) → take {A = ℕ} k [] ≡ []
take-nil zero = refl
take-nil (suc k) = refl

drop-nil : (k : ℕ) → drop {A = ℕ} k [] ≡ []
drop-nil zero = refl
drop-nil (suc k) = refl

pub try_read_loop-Taken : (k : ℕ) {rb : Ringbuf} → IsValid rb → Taken k rb (try_read_loop k rb)
unfolding try_read_loop
try_read_loop-Taken zero v = record { bytes = refl; rest = refl; valid = v }
try_read_loop-Taken (suc k) {rb} v = elim (get_cases v) [
  | inl (e, f) ↦ rw (e, try_read_loop) (record { bytes = rw f; rest = rw f; valid = v })
  | inr (c, rb', e, f) ↦
      let ih = try_read_loop-Taken k (get-IsValid v e) in
      rw (e, try_read_loop)
        (record { bytes = rw f (ap (λ l. c ∷ l) ih.bytes); rest = rw f ih.rest; valid = ih.valid })
]

-- Every byte that an interrupt brings waits behind the others while there is room.
pub deliver_lem :
    (cs : List ℕ) {rb : Ringbuf}
    → IsValid rb
    → length (contents rb) + length cs ≤ 4095
    → IsValid (deliver rb cs) × (contents (deliver rb cs) ≡ contents rb ++ cs)
unfolding deliver
deliver_lem [] {rb} v room = (v, sym (append-nil (contents rb)))
deliver_lem (c ∷ cs) {rb} v room = elim (put_cases c v) [
  | inl (e, f) ↦ absurd (omega (arith, queue_put-eq-none (contents rb) c f))
  | inr (rb', e, f) ↦
      let grown = (queue_put-eq-some (contents rb) (contents rb') c f).1 in
      let sizes = ap (length {0}) grown ∙ length-append (contents rb) (c ∷ []) in
      let (w, ih) = deliver_lem cs (put-IsValid c v e) (omega (arith, sizes)) in
      rw (e, deliver) (w, ih ∙ ap (λ l. l ++ cs) grown ∙ append_assoc (contents rb) (c ∷ []) cs)
]

abbrev pub joined : List (List ℕ) → List ℕ
joined [] = []
joined (l ∷ ls) = l ++ joined ls

take-append :
    (k : ℕ) (xs ys : List ℕ)
    → take k (xs ++ ys) ≡ take k xs ++ take (k - length (take k xs)) (drop k xs ++ ys)
take-append zero xs ys = refl
take-append (suc k) [] ys = ap (λ n. take n ys) {x = suc k} {y = suc k - 0} (omega arith)
take-append (suc k) (x ∷ xs) ys = ap (λ l. x ∷ l) (take-append k xs ys ∙ same)
  where
    left : ℕ
    left = length (take k xs)

    same :
        take k xs ++ take (k - left) (drop k xs ++ ys)
        ≡ take k xs ++ take (suc k - suc left) (drop k xs ++ ys)
    same =
        ap (λ n. take k xs ++ take n (drop k xs ++ ys)) {x = k - left} {y = suc k - suc left}
          (omega arith)

-- A stream opened for reading, and the bytes it hands over: the first `len` that wait, in order.
-- The result is their number, the others stay, and neither flag nor overflow count changes.
pub record TookFrom (s : Stream) (len : ℕ) (r : ℤ × List ℕ × Stream) : Type 0 where
  pub result : r.0 ≡ pos (length (take len (contents s.rb)))
  pub bytes : r.1 ≡ take len (contents s.rb)
  pub rest : contents r.2.rb ≡ drop len (contents s.rb)
  pub valid : IsValid r.2.rb
  pub flag : r.2.flag ≡ s.flag
  pub overflow : r.2.overflow ≡ s.overflow

-- With a valid ring, a readable stream and a `dst` that is not null: `stream_try_read` takes the
-- first `len` waiting bytes, or all of them if fewer wait.
pub try_read-TookFrom :
    (s : Stream) (dst len : ℕ)
    → IsValid s.rb
    → has_bits s.flag st_read ≡ true
    → dst ≢ 0
    → TookFrom s len (stream_try_read s dst len)
unfolding stream_try_read
try_read-TookFrom s dst len v readable here =
    let t = try_read_loop-Taken len v in
    let passes : (not (has_bits s.flag st_read) || dst == 0) ≡ false = ground arith in
    rw passes (record {
      result = ap (λ l. pos (length l)) t.bytes;
      bytes = t.bytes;
      rest = t.rest;
      valid = t.valid;
      flag = refl;
      overflow = refl;
    })

-- What a blocking read owes its caller.
pub data Reads (bytes : List ℕ) : Outcome (List ℕ × Stream) → Type 0 where
  reads : (s : Stream) → IsValid s.rb → Reads bytes (returned (bytes, s))

Reads-prepend :
    {bs : List ℕ} {o : Outcome (List ℕ × Stream)} (b : List ℕ)
    → Reads bs o
    → Reads (b ++ bs) (prepend b o)
Reads-prepend b (reads s v) = reads s v

more-Reads :
    (need : ℕ) {s : Stream} {r : ℤ × List ℕ × Stream} (arrivals : List (List ℕ))
    {o : Outcome (List ℕ × Stream)}
    → TookFrom s need r
    → Reads (take (need - length r.1) (contents r.2.rb ++ joined arrivals)) o
    → Reads (take need (contents s.rb ++ joined arrivals)) (prepend r.1 o)
more-Reads need {s} {r} arrivals {o} t h =
    rw (take-append need (contents s.rb) (joined arrivals), ← t.bytes, ← t.rest)
      (Reads-prepend r.1 h)

take-pos : (n : ℕ) (xs : List ℕ) → xs ≢ [] → 0 < length (take (suc n) xs)
take-pos n [] h = absurd (h refl)
take-pos n (x ∷ xs) h = omega arith

List-cases : (xs : List ℕ) → (xs ≡ []) ⊎ (xs ≢ [])
List-cases [] = inl refl
List-cases (x ∷ xs) = inr (λ e. cc)

-- The turn of the loop that stores bytes.
stores :
    (n got : ℕ) {s : Stream} {r : ℤ × List ℕ × Stream} (arrivals : List (List ℕ))
    → TookFrom s (suc n) r
    → contents s.rb ≢ []
    → (positive r.0 ≡ true)
      × (0 < length r.1)
      × (length r.1 ≤ suc n)
      × (length r.1 + length (contents r.2.rb ++ joined arrivals)
          ≡ length (contents s.rb ++ joined arrivals))
      × (got + suc n ≡ (got + length r.1) + (suc n - length r.1))
stores n got {s} {r} arrivals t some_wait =
    let got_some = take-pos n (contents s.rb) some_wait in
    let sizes = ap (length {0}) t.bytes in
    let rests = ap (length {0}) t.rest in
    let bound = length-take (suc n) (contents s.rb) in
    let left = length-drop (suc n) (contents s.rb) in
    let before = length-append (contents s.rb) (joined arrivals) in
    let then_ = length-append (contents r.2.rb) (joined arrivals) in
    (rw t.result (ground arith), omega arith, omega arith, omega arith, omega arith)

-- The turn of the loop that halts: nothing waited, and nothing waits after it.
halts :
    (n : ℕ) {s : Stream} {r : ℤ × List ℕ × Stream}
    → TookFrom s (suc n) r
    → contents s.rb ≡ []
    → (positive r.0 ≡ false) × (contents r.2.rb ≡ [])
halts n {s} {r} t none_wait = (rw (t.result, none_wait), t.rest ∙ ap (drop (suc n)) none_wait)

read_loop-Reads :
    (fuel : ℕ) (arrivals : List (List ℕ)) (dst got need : ℕ) (s : Stream)
    → IsValid s.rb
    → has_bits s.flag st_read ≡ true
    → dst ≢ 0
    → need ≤ length (contents s.rb ++ joined arrivals)
    → length (contents s.rb ++ joined arrivals) ≤ 4095
    → need + length arrivals < fuel
    → Reads
        (take need (contents s.rb ++ joined arrivals))
        (read_loop fuel arrivals dst got (got + need) s)
unfolding read_loop
read_loop-Reads zero arrivals dst got need s v readable here enough room fuel = absurd (omega arith)
read_loop-Reads (suc f) arrivals dst got zero s v readable here enough room fuel =
    let done : ltb got (got + 0) ≡ false = ground arith in rw done (reads s v)
read_loop-Reads (suc f) [] dst got (suc n) s v readable here enough room fuel =
    let len = got + suc n in
    let want : len - got ≡ suc n = omega arith in
    let r = stream_try_read s (dst + got) (suc n) in
    let t = try_read-TookFrom s (dst + got) (suc n) v readable (omega arith) in
    let goes : ltb got len ≡ true = ground arith in
    rw (goes, want)
      (elim (List-cases (contents s.rb)) [
        | inl none_wait ↦ absurd (omega (arith, ap (λ l. length (l ++ [])) none_wait))
        | inr some_wait ↦
            let (go, pos_n, le_n, sum_n, split_n) = stores n got [] t some_wait in
            let left = suc n - length r.1 in
            let more =
              read_loop-Reads f [] dst (got + length r.1) left r.2 t.valid (rw t.flag readable) here
                (omega arith) (omega arith) (omega arith) in
            rw go (more-Reads (suc n) [] t (rw split_n more))
      ])
read_loop-Reads (suc f) (cs ∷ rest) dst got (suc n) s v readable here enough room fuel =
    let len = got + suc n in
    let want : len - got ≡ suc n = omega arith in
    let r = stream_try_read s (dst + got) (suc n) in
    let t = try_read-TookFrom s (dst + got) (suc n) v readable (omega arith) in
    let goes : ltb got len ≡ true = ground arith in
    rw (goes, want)
      (elim (List-cases (contents s.rb)) [
        | inl none_wait ↦
            let (stops, empty) = halts n t none_wait in
            let sizes = length-append cs (joined rest) in
            let nothing = ap (length {0}) empty in
            let fits : length (cs ++ joined rest) ≤ 4095 = rw none_wait at room in
            let wanted : suc n ≤ length (cs ++ joined rest) = rw none_wait at enough in
            let (v', came) = deliver_lem cs t.valid (omega arith) in
            let now : contents (deliver r.2.rb cs) ≡ cs = came ∙ ap (λ l. l ++ cs) empty in
            let more =
              read_loop-Reads f rest dst got (suc n) (record r.2 { rb = deliver r.2.rb cs }) v'
                (rw t.flag readable) here (rw now wanted) (rw now fits) (omega arith) in
            rw (stops, none_wait) (rw now at more)
        | inr some_wait ↦
            let (go, pos_n, le_n, sum_n, split_n) = stores n got (cs ∷ rest) t some_wait in
            let left = suc n - length r.1 in
            let more =
              read_loop-Reads f (cs ∷ rest) dst (got + length r.1) left r.2 t.valid
                (rw t.flag readable) here (omega arith) (omega arith) (omega arith) in
            rw go (more-Reads (suc n) (cs ∷ rest) t (rw split_n more))
      ])

-- With a valid ring, a stream opened for reading and a `dst` that is not null, a blocking read
-- returns exactly the bytes that were asked for, the waiting ones first and then
-- those that interrupts bring, in their order, once that many
-- have come and if 4095 at most come in all.
pub stream_read-Reads :
    (arrivals : List (List ℕ)) (s : Stream) (dst len : ℕ)
    → IsValid s.rb
    → has_bits s.flag st_read ≡ true
    → dst ≢ 0
    → len ≤ length (contents s.rb ++ joined arrivals)
    → length (contents s.rb ++ joined arrivals) ≤ 4095
    → Reads (take len (contents s.rb ++ joined arrivals)) (stream_read arrivals s dst len)
unfolding stream_read
stream_read-Reads arrivals s dst len v readable here enough room =
    let from_zero : 0 + len ≡ len = omega arith in
    rw from_zero at (
      read_loop-Reads (suc (len + length arrivals)) arrivals dst 0 len s v readable here enough room
        (omega arith))

-- What a write owes: everything is put behind the waiting bytes, and no overflow is counted.
pub data Writes (s : Stream) (bytes : List ℕ) : Outcome Stream → Type 0 where
  writes :
      (t : Stream)
      → IsValid t.rb
      → contents t.rb ≡ contents s.rb ++ bytes
      → t.overflow ≡ s.overflow
      → Writes s bytes (returned t)

-- One byte that fits, and then the others.
Writes-cons :
    {s : Stream} {rb : Ringbuf} {c : ℕ} {cs : List ℕ} {o : Outcome Stream}
    → contents rb ≡ contents s.rb ++ c ∷ []
    → Writes (record s { rb = rb }) cs o
    → Writes s (c ∷ cs) o
Writes-cons {s} {c} {cs} grown (writes t v e f) =
    writes t v (e ∙ ap (λ l. l ++ cs) grown ∙ append_assoc (contents s.rb) (c ∷ []) cs) f

write_loop-Writes :
    (bytes drains : List ℕ) (s : Stream)
    → IsValid s.rb
    → length (contents s.rb) + length bytes ≤ 4095
    → Writes s bytes (write_loop bytes drains s)
unfolding write_loop
write_loop-Writes [] drains s v room = writes s v (sym (append-nil (contents s.rb))) refl
write_loop-Writes (c ∷ cs) [] s v room = elim (put_cases c v) [
  | inl (e, f) ↦ absurd (omega (arith, queue_put-eq-none (contents s.rb) c f))
  | inr (rb, e, f) ↦
      let grown = (queue_put-eq-some (contents s.rb) (contents rb) c f).1 in
      let sizes = ap (length {0}) grown ∙ length-append (contents s.rb) (c ∷ []) in
      rw (e, write_loop)
        (Writes-cons grown (
          write_loop-Writes cs [] (record s { rb = rb }) (put-IsValid c v e)
            (omega (arith, sizes))))
]
write_loop-Writes (c ∷ cs) (d ∷ ds) s v room = elim (put_cases c v) [
  | inl (e, f) ↦ absurd (omega (arith, queue_put-eq-none (contents s.rb) c f))
  | inr (rb, e, f) ↦
      let grown = (queue_put-eq-some (contents s.rb) (contents rb) c f).1 in
      let sizes = ap (length {0}) grown ∙ length-append (contents s.rb) (c ∷ []) in
      rw (e, write_loop)
        (Writes-cons grown (
          write_loop-Writes cs (d ∷ ds) (record s { rb = rb }) (put-IsValid c v e)
            (omega (arith, sizes))))
]

-- On a stream opened for writing with a valid ring, and from a `src` that is not null, bytes that
-- fit the ring are put behind those that wait, in their order, with no halt: the result is their
-- number and no overflow is counted.
pub stream_write_lem :
    (drains : List ℕ) (s : Stream) (src : ℕ) (bytes : List ℕ)
    → IsValid s.rb
    → has_bits s.flag st_write ≡ true
    → src ≢ 0
    → length (contents s.rb) + length bytes ≤ 4095
    → (t : Stream) × (stream_write drains s src bytes ≡ returned (pos (length bytes), t))
      × (contents t.rb ≡ contents s.rb ++ bytes)
      × IsValid t.rb
      × (t.overflow ≡ s.overflow)
unfolding stream_write
stream_write_lem drains s src bytes v writable here room =
    let passes : (not (has_bits s.flag st_write) || src == 0) ≡ false = ground arith in
    rw passes (finish (write_loop-Writes bytes drains s v room))
  where
    finish :
        {o : Outcome Stream}
        → Writes s bytes o
        → (t : Stream) × ((elim o as (λ _. Outcome (ℤ × Stream)) [
          | returned s' ↦ returned (pos (length bytes), s')
          | blocked ↦ blocked
          | out_of_fuel ↦ out_of_fuel
        ])
            ≡ returned (pos (length bytes), t))
          × (contents t.rb ≡ contents s.rb ++ bytes)
          × IsValid t.rb
          × (t.overflow ≡ s.overflow)
    finish (writes t v' e f) = (t, refl, e, v', f)
