-- ===== src/Libc/Spinlock.antt =====
-- libc/mutex.c: the spin lock. The byte `locked` is exchanged in one step; between the steps of a
-- thread the others run.
pub mod Exclusion
pub mod Tests
use trs.Common.{ℕ, ◌≡◌, Bool, true, false, ◌==◌, if◌then◌else◌}

-- `__atomic_exchange_n(&s->locked, 1)`: the old value and the new one.
abbrev pub exchange : ℕ → ℕ → ℕ × ℕ
exchange locked value = (locked, value)

-- Whether the lock was taken, and the lock.
unfoldable pub spin_trylock : ℕ → Bool × ℕ
spin_trylock locked = let e = exchange locked 1 in (e.0 == 0, e.1)

unfoldable pub spin_unlock : ℕ → ℕ
spin_unlock locked = 0

-- Where a thread stands: outside, in the loop of `spin_lock`, or between lock and unlock.
pub data Phase : Type 0 where
  outside : Phase
  spinning : Phase
  inside : Phase

-- A turn of the loop of `spin_lock`: the phase that follows, and the lock.
unfoldable pub spin_turn : ℕ → Phase × ℕ
spin_turn locked = let e = exchange locked 1 in if e.0 == 0 then (inside, e.1) else (spinning, e.1)

-- The lock and the threads that share it.
pub record Threads : Type 0 where
  pub locked : ℕ
  pub phase : ℕ → Phase

abbrev pub with_phase : Threads → ℕ → Phase → ℕ → Phase
with_phase w i p j = if j == i then p else w.phase j

-- A step of one thread: it calls `spin_lock`, makes a turn of its loop, tries the lock once by
-- `spin_trylock`, or releases the lock that it holds.
pub data Step : Threads → Threads → Type 0 where
  calls :
      (w : Threads) (i : ℕ)
      → w.phase i ≡ outside
      → Step w (record { locked = w.locked; phase = with_phase w i spinning })
  spins :
      (w : Threads) (i : ℕ)
      → w.phase i ≡ spinning
      → Step w (record {
        locked = (spin_turn w.locked).1;
        phase = with_phase w i (spin_turn w.locked).0;
      })
  tries :
      (w : Threads) (i : ℕ)
      → w.phase i ≡ outside
      → Step w (record {
        locked = (spin_trylock w.locked).1;
        phase = with_phase w i (if (spin_trylock w.locked).0 then inside else outside);
      })
  releases :
      (w : Threads) (i : ℕ)
      → w.phase i ≡ inside
      → Step w (record { locked = spin_unlock w.locked; phase = with_phase w i outside })

pub data Run : Threads → Threads → Type 0 where
  none : {w : Threads} → Run w w
  and_step : {u v w : Threads} → Run u v → Step v w → Run u w
