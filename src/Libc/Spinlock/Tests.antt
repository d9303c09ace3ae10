-- ===== src/Libc/Spinlock/Tests.antt =====
-- Two threads at a spin lock, and the theorem there.
use trs.Common.{◌≡◌, refl}
use trs.Libc.Spinlock.{
  spin_turn, outside, spinning, Threads, with_phase, calls, spins, Run, none, and_step,
}
use trs.Libc.Spinlock.Exclusion.{IsExclusive, spinlock-IsExclusive}

abbrev before : Threads
before = record { locked = 0; phase = λ i. outside }

abbrev waiting : Threads
waiting = record { locked = 0; phase = with_phase before 0 spinning }

abbrev both_waiting : Threads
both_waiting = record { locked = 0; phase = with_phase waiting 1 spinning }

abbrev first_in : Threads
first_in = record { locked = (spin_turn 0).1; phase = with_phase both_waiting 0 (spin_turn 0).0 }

abbrev second_spun : Threads
second_spun = record {
  locked = (spin_turn first_in.locked).1;
  phase = with_phase first_in 1 (spin_turn first_in.locked).0;
}

still_spinning : second_spun.phase 1 ≡ spinning
unfolding spin_turn
still_spinning = refl

two_turns : Run before second_spun
two_turns =
    and_step
      (and_step (and_step (and_step none (calls before 0 refl)) (calls waiting 1 refl))
        (spins both_waiting 0 refl))
      (spins first_in 1 refl)

spinlock-IsExclusive_example : IsExclusive second_spun
spinlock-IsExclusive_example = spinlock-IsExclusive (λ i. refl) two_turns
