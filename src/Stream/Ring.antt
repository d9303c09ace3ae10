-- ===== src/Stream/Ring.antt =====
-- The ring buffer of kernel/stream.c as a queue of at most 4095 bytes, oldest first.
use trs.Common.{
  ℕ, zero, suc, ◌+◌, ◌-◌, ◌%◌, ◌<◌, ◌≡◌, refl, ◌∙◌, ap, sym, ◌≢◌, ◌⊎◌, inl, inr, Option-cases, List,
  [], ◌∷◌, ◌++◌, Option, none, some, arith, ◌==◌, if◌then◌else◌, length, get_or, set, length-set,
  u32,
}
use trs.Common.Bits.{bit_and_low}
use mathlib.Core.Path.{ap₂}
use trs.Stream.{Ringbuf, next_index, ringbuf_put, ringbuf_get}

-- The representation invariant: both indices lie in the buffer.
pub record IsValid (rb : Ringbuf) : Type 0 where
  pub storage : length rb.buf ≡ 4096
  pub head_in : rb.head < 4096
  pub tail_in : rb.tail < 4096

-- The masks of the source take the remainder.
pub next_index_lem : (i : ℕ) → i < 4096 → next_index i ≡ (i + 1) % 4096
next_index_lem i h = omega (arith, bit_and_low 12 (u32 (i + 1)))

-- The `n` bytes from index `h` on, going round at 4096.
abbrev pub window : List ℕ → ℕ → ℕ → List ℕ
window buf h zero = []
window buf h (suc n) = get_or buf h 0 ∷ window buf ((h + 1) % 4096) n

abbrev pub count : Ringbuf → ℕ
count rb = (rb.head + 4096 - rb.tail) % 4096

abbrev pub contents : Ringbuf → List ℕ
contents rb = window rb.buf rb.tail (count rb)

-- The specification.
abbrev pub queue_put : List ℕ → ℕ → Option (List ℕ)
queue_put q c = if length q == 4095 then none else some (q ++ c ∷ [])

abbrev pub queue_get : List ℕ → Option (ℕ × List ℕ)
queue_get [] = none
queue_get (c ∷ q) = some (c, q)

pub length-window : (buf : List ℕ) (h n : ℕ) → length (window buf h n) ≡ n
length-window buf h zero = refl
length-window buf h (suc n) = ap suc (length-window buf ((h + 1) % 4096) n)

pub length-contents : (rb : Ringbuf) → length (contents rb) ≡ count rb
length-contents rb = length-window rb.buf rb.tail (count rb)

get_or-set_self : (xs : List ℕ) (i v d : ℕ) → i < length xs → get_or (set xs i v) i d ≡ v
get_or-set_self [] i v d h = absurd (omega arith)
get_or-set_self (x ∷ xs) zero v d h = refl
get_or-set_self (x ∷ xs) (suc i) v d h = get_or-set_self xs i v d (omega arith)

get_or-set_ne : (xs : List ℕ) (i j v d : ℕ) → i ≢ j → get_or (set xs i v) j d ≡ get_or xs j d
get_or-set_ne [] i j v d h = refl
get_or-set_ne (x ∷ xs) zero zero v d h = absurd (h refl)
get_or-set_ne (x ∷ xs) zero (suc j) v d h = refl
get_or-set_ne (x ∷ xs) (suc i) zero v d h = refl
get_or-set_ne (x ∷ xs) (suc i) (suc j) v d h = get_or-set_ne xs i j v d (λ e. h (ap suc e))

-- A byte stored just past a window extends it.
window-set :
    (buf : List ℕ) (x n h i : ℕ)
    → length buf ≡ 4096
    → h < 4096
    → n < 4096
    → i ≡ (h + n) % 4096
    → window (set buf i x) h (suc n) ≡ window buf h n ++ (x ∷ [])
window-set buf x zero h i hs hh hn e =
    let same : i ≡ h = omega arith in
    rw same (ap (λ v. v ∷ []) (get_or-set_self buf h x 0 (omega arith)))
window-set buf x (suc n) h i hs hh hn e =
    ap₂ ◌∷◌ (get_or-set_ne buf i h x 0 (omega arith))
      (window-set buf x n ((h + 1) % 4096) i hs (omega arith) (omega arith) (omega arith))

window_step :
    (buf : List ℕ) (h n : ℕ)
    → 0 < n
    → window buf h n ≡ get_or buf h 0 ∷ window buf ((h + 1) % 4096) (n - 1)
window_step buf h zero p = absurd (omega arith)
window_step buf h (suc n) p = ap (λ k. window buf h (suc k)) (omega arith)

-- The indices and the bytes that `ringbuf_put` leaves.
put_window :
    (rb : Ringbuf) (c : ℕ)
    → IsValid rb
    → count rb ≢ 4095
    → window (set rb.buf rb.head c) rb.tail ((((rb.head + 1) % 4096) + 4096 - rb.tail) % 4096)
      ≡ contents rb ++ (c ∷ [])
put_window rb c v room =
    ap (window (set rb.buf rb.head c) rb.tail) {y = suc (count rb)} (omega arith)
    ∙ window-set rb.buf c (count rb) rb.tail rb.head v.storage v.tail_in (omega arith) (omega arith)

-- `ringbuf_put` keeps the invariant.
pub put-IsValid :
    {rb rb' : Ringbuf} (c : ℕ) → IsValid rb → ringbuf_put rb c ≡ some rb' → IsValid rb'
unfolding ringbuf_put
put-IsValid {rb} c v e =
    ground (arith, length-set rb.buf rb.head c, next_index_lem rb.head v.head_in)

-- `ringbuf_get` keeps the invariant.
pub get-IsValid :
    {rb rb' : Ringbuf} {c : ℕ} → IsValid rb → ringbuf_get rb ≡ some (c, rb') → IsValid rb'
unfolding ringbuf_get
get-IsValid {rb} v e = ground (arith, next_index_lem rb.tail v.tail_in)

abbrev pub map_some {ℓ κ} : {A : Type ℓ} {B : Type κ} → (A → B) → Option A → Option B
map_some f none = none
map_some f (some a) = some (f a)

-- On a valid ring `ringbuf_put` refuses a byte exactly when 4095 bytes wait, and otherwise
-- appends it to the bytes that wait.
pub put_refines :
    {rb : Ringbuf} (c : ℕ)
    → IsValid rb
    → map_some contents (ringbuf_put rb c) ≡ queue_put (contents rb) c
unfolding ringbuf_put
put_refines {rb} c v =
    ground (arith, length-contents rb, next_index_lem rb.head v.head_in, put_window rb c v)

-- On a valid ring `ringbuf_get` fails exactly when no byte waits, and otherwise returns the
-- oldest byte and leaves the others in their order.
pub get_refines :
    {rb : Ringbuf}
    → IsValid rb
    → map_some (λ (r : ℕ × Ringbuf). (r.0, contents r.1)) (ringbuf_get rb) ≡ queue_get (contents rb)
unfolding ringbuf_get
get_refines {rb} v = ground (
  arith,
  length-contents rb,
  next_index_lem rb.tail v.tail_in,
  window_step rb.buf rb.tail (count rb),
)

-- Calls in any order, an interrupt handler's and a reader's mixed.
pub data Call : Type 0 where
  put : ℕ → Call
  get : Call

-- What the calls return: 0 or -1 of a put, the byte of a get.
unfoldable pub run_calls : Ringbuf → List Call → List (Option ℕ)
run_calls rb [] = []
run_calls rb (put c ∷ calls) = elim (ringbuf_put rb c) [
  | none ↦ none ∷ run_calls rb calls
  | some rb' ↦ some 0 ∷ run_calls rb' calls
]
run_calls rb (get ∷ calls) = elim (ringbuf_get rb) [
  | none ↦ none ∷ run_calls rb calls
  | some (c, rb') ↦ some c ∷ run_calls rb' calls
]

unfoldable pub run_queue : List ℕ → List Call → List (Option ℕ)
run_queue q [] = []
run_queue q (put c ∷ calls) = elim (queue_put q c) [
  | none ↦ none ∷ run_queue q calls
  | some q' ↦ some 0 ∷ run_queue q' calls
]
run_queue q (get ∷ calls) = elim (queue_get q) [
  | none ↦ none ∷ run_queue q calls
  | some (c, q') ↦ some c ∷ run_queue q' calls
]

pub queue_put-eq-some :
    (q q' : List ℕ) (c : ℕ) → queue_put q c ≡ some q' → (length q ≢ 4095) × (q' ≡ q ++ c ∷ [])
queue_put-eq-some q q' c h = ground arith

pub queue_put-eq-none : (q : List ℕ) (c : ℕ) → queue_put q c ≡ none → length q ≡ 4095
queue_put-eq-none q c h = ground arith

pub put_cases :
    {rb : Ringbuf} (c : ℕ)
    → IsValid rb
    → ((ringbuf_put rb c ≡ none) × (queue_put (contents rb) c ≡ none))
      ⊎ ((rb' : Ringbuf) × (ringbuf_put rb c ≡ some rb')
          × (queue_put (contents rb) c ≡ some (contents rb')))
put_cases {rb} c v = elim (Option-cases (ringbuf_put rb c)) [
  | inl e ↦ inl (e, sym (put_refines c v) ∙ ap (map_some contents) e)
  | inr (rb', e) ↦ inr (rb', e, sym (put_refines c v) ∙ ap (map_some contents) e)
]

queue_get-none : (q : List ℕ) → queue_get q ≡ none → q ≡ []
queue_get-none q h = ground arith

queue_get-some : (q : List ℕ) (c : ℕ) (r : List ℕ) → queue_get q ≡ some (c, r) → q ≡ c ∷ r
queue_get-some q c r h = ground arith

pub get_cases :
    {rb : Ringbuf}
    → IsValid rb
    → ((ringbuf_get rb ≡ none) × (contents rb ≡ []))
      ⊎ ((c : ℕ) × (rb' : Ringbuf) × (ringbuf_get rb ≡ some (c, rb'))
          × (contents rb ≡ c ∷ contents rb'))
get_cases {rb} v = elim (Option-cases (ringbuf_get rb)) [
  | inl e ↦ inl (e, queue_get-none (contents rb) (sym (get_refines v) ∙ ap (map_some after) e))
  | inr ((c, rb'), e) ↦ inr (
    c,
    rb',
    e,
    queue_get-some (contents rb) c (contents rb') (sym (get_refines v) ∙ ap (map_some after) e),
  )
]
  where
    after : ℕ × Ringbuf → ℕ × List ℕ
    after r = (r.0, contents r.1)

-- On a valid ring any sequence of calls returns what the bounded queue of the waiting bytes
-- returns: bytes come out in the order they went in, none is lost or made up but by a refusal.
pub run_calls_refines :
    {rb : Ringbuf} (calls : List Call)
    → IsValid rb
    → run_calls rb calls ≡ run_queue (contents rb) calls
unfolding run_calls run_queue
run_calls_refines [] v = refl
run_calls_refines {rb} (put c ∷ calls) v = elim (put_cases c v) [
  | inl (e, f) ↦ ground (arith, run_calls_refines calls v)
  | inr (rb', e, f) ↦ ground (arith, run_calls_refines calls (put-IsValid c v e))
]
run_calls_refines {rb} (get ∷ calls) v = elim (get_cases v) [
  | inl (e, f) ↦ ground (arith, run_calls_refines calls v)
  | inr (c, rb', e, f) ↦ ground (arith, run_calls_refines calls (get-IsValid v e))
]
