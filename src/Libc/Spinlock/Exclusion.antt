-- ===== src/Libc/Spinlock/Exclusion.antt =====
-- Mutual exclusion by the spin lock of libc/mutex.c.
use trs.Common.{
  ℕ, ◌≡◌, ◌≢◌, refl, ap, sym, ◌∙◌, arith, Bool, true, false, ◌==◌, if◌then◌else◌, Bool-cases, inl,
  inr,
}
use mathlib.Core.Path.{subst}
use trs.Libc.Spinlock.{
  spin_trylock, spin_unlock, Phase, outside, spinning, inside, spin_turn, Threads, with_phase, Step,
  calls, spins, tries, releases, Run, none, and_step,
}

-- At most one thread is between lock and unlock, and none while the lock is free.
pub record IsExclusive (w : Threads) : Type 0 where
  pub one : (i j : ℕ) → w.phase i ≡ inside → w.phase j ≡ inside → i ≡ j
  pub free : (i : ℕ) → w.phase i ≡ inside → w.locked ≢ 0

pub is_inside : Phase → Bool
is_inside inside = true
is_inside outside = false
is_inside spinning = false

-- A thread that is inside behind the change of another one's phase was so before.
inside_before :
    (w : Threads) (i j : ℕ) (p : Phase)
    → is_inside p ≡ false
    → with_phase w i p j ≡ inside
    → (j ≢ i) × (w.phase j ≡ inside)
unfolding is_inside
inside_before w i j p out h = elim (Bool-cases (j == i)) [
  | inl e ↦
      let same : with_phase w i p j ≡ p = rw e refl in
      let both : true ≡ false = ap is_inside (sym h ∙ same) ∙ out in absurd (ground arith)
  | inr e ↦ let same : with_phase w i p j ≡ w.phase j = rw e refl in (ground arith, sym same ∙ h)
]

stays-IsExclusive :
    (w : Threads) (i locked : ℕ) (p : Phase)
    → IsExclusive w
    → is_inside p ≡ false
    → (w.locked ≢ 0 → locked ≢ 0)
    → IsExclusive (record { locked = locked; phase = with_phase w i p })
stays-IsExclusive w i locked p h out keeps = record {
  one = λ a b f g. h.one a b (inside_before w i a p out f).1 (inside_before w i b p out g).1;
  free = λ a f. keeps (h.free a (inside_before w i a p out f).1);
}

releases-IsExclusive :
    (w : Threads) (i : ℕ)
    → IsExclusive w
    → w.phase i ≡ inside
    → IsExclusive (record { locked = 0; phase = with_phase w i outside })
unfolding is_inside
releases-IsExclusive w i h held =
    let gone : (a : ℕ) → with_phase w i outside a ≡ inside → ⊥ =
      λ a f. let (other, was) = inside_before w i a outside refl f in other (h.one a i was held) in
    record { one = λ a b f g. absurd (gone a f); free = λ a f. absurd (gone a f) }

takes-IsExclusive :
    (w : Threads) (i : ℕ)
    → IsExclusive w
    → w.locked ≡ 0
    → IsExclusive (record { locked = 1; phase = with_phase w i inside })
takes-IsExclusive w i h lock_free =
    let only : (a : ℕ) → with_phase w i inside a ≡ inside → a ≡ i = λ a f.
      elim (Bool-cases (a == i)) [
        | inl e ↦ ground arith
        | inr e ↦
            let same : with_phase w i inside a ≡ w.phase a = rw e refl in
            absurd (h.free a (sym same ∙ f) lock_free)
      ] in
    record { one = λ a b f g. only a f ∙ sym (only b g); free = λ a f. omega arith }

-- A single try, and a turn of the loop, between which the thread keeps a phase that is not inside.
tries-IsExclusive :
    (w : Threads) (i : ℕ)
    → IsExclusive w
    → IsExclusive (record {
      locked = (spin_trylock w.locked).1;
      phase = with_phase w i (if (spin_trylock w.locked).0 then inside else outside);
    })
unfolding spin_trylock is_inside
tries-IsExclusive w i h =
    let after : Bool → Type 0 = λ b.
      IsExclusive (record { locked = 1; phase = with_phase w i (if b then inside else outside) }) in
    elim (Bool-cases (w.locked == 0)) [
      | inl e ↦ subst after (sym e) (takes-IsExclusive w i h (ground arith))
      | inr e ↦ subst after (sym e) (stays-IsExclusive w i 1 outside h refl (λ k. omega arith))
    ]

spins-IsExclusive :
    (w : Threads) (i : ℕ)
    → IsExclusive w
    → IsExclusive
        (record { locked = (spin_turn w.locked).1; phase = with_phase w i (spin_turn w.locked).0 })
unfolding spin_turn is_inside
spins-IsExclusive w i h =
    let turn : Bool → Phase × ℕ = λ b. if b then (inside, 1) else (spinning, 1) in
    let after : Bool → Type 0 =
      λ b. IsExclusive (record { locked = (turn b).1; phase = with_phase w i (turn b).0 }) in
    elim (Bool-cases (w.locked == 0)) [
      | inl e ↦ subst after (sym e) (takes-IsExclusive w i h (ground arith))
      | inr e ↦ subst after (sym e) (stays-IsExclusive w i 1 spinning h refl (λ k. omega arith))
    ]

Step-IsExclusive : {w v : Threads} → Step w v → IsExclusive w → IsExclusive v
unfolding spin_unlock is_inside
Step-IsExclusive (calls w i out) h = stays-IsExclusive w i w.locked spinning h refl (λ k. k)
Step-IsExclusive (spins w i spin) h = spins-IsExclusive w i h
Step-IsExclusive (tries w i out) h = tries-IsExclusive w i h
Step-IsExclusive (releases w i held) h = releases-IsExclusive w i h held

Run-IsExclusive : {w v : Threads} → Run w v → IsExclusive w → IsExclusive v
Run-IsExclusive none h = h
Run-IsExclusive (and_step run step) h = Step-IsExclusive step (Run-IsExclusive run h)

-- Any number of threads that start outside a free lock, call `spin_lock` and `spin_trylock` and
-- release what they hold, in any order of their turns, are never two between lock and unlock, and
-- the lock is not free while one is there.
pub spinlock-IsExclusive :
    {start w : Threads} → ((i : ℕ) → start.phase i ≡ outside) → Run start w → IsExclusive w
unfolding is_inside
spinlock-IsExclusive {start} out run =
    let none_in : (i : ℕ) → start.phase i ≡ inside → ⊥ =
      λ i f. let both : true ≡ false = ap is_inside (sym f ∙ out i) in absurd (ground arith) in
    Run-IsExclusive run
      (record { one = λ a b f g. absurd (none_in a f); free = λ a f. absurd (none_in a f) })
