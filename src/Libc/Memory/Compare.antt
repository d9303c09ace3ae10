-- ===== src/Libc/Memory/Compare.antt =====
-- memset fills and memcmp compares exactly the bytes given (libc/string.c).
use trs.Common.{
  ℕ, zero, suc, ◌+◌, ◌<◌, ◌≡◌, ◌≢◌, refl, ◌⊎◌, inl, inr, ◌&&◌, arith, ltb, leb, ◌==◌, if◌then◌else◌,
  u8, pos, Bool-cases,
}
use trs.Common.Memory.{Mem, store}
use trs.Libc.Memory.{memset, memcmp, byte_difference}

-- `memset` stores the low byte of `val` in the `len` bytes from `dst` on, and nowhere else.
pub memset_lem :
    (m : Mem) (dst val len a : ℕ)
    → memset m dst val len a ≡ (if leb dst a && ltb a (dst + len) then u8 val else m a)
unfolding memset
memset_lem m dst val zero a = ground arith
memset_lem m dst val (suc len) a =
    ground (arith, memset_lem (store m dst (u8 val)) (dst + 1) val len a)

-- The ranges agree in their first `n` bytes.
abbrev pub Agree : Mem → ℕ → ℕ → ℕ → Type 0
Agree m a b n = (i : ℕ) → i < n → m (a + i) ≡ m (b + i)

Agree-suc : (m : Mem) (a b n : ℕ) → m a ≡ m b → Agree m (a + 1) (b + 1) n → Agree m a b (suc n)
Agree-suc m a b n e h zero p = ground arith
Agree-suc m a b n e h (suc i) p = ground (arith, h i)

-- `memcmp` is 0 where the ranges agree, and otherwise the difference of the first two bytes that
-- do not agree.
pub memcmp_lem :
    (m : Mem) (a b len : ℕ)
    → (Agree m a b len × (memcmp m a b len ≡ pos 0))
      ⊎ ((i : ℕ) × (i < len)
          × Agree m a b i
          × (m (a + i) ≢ m (b + i))
          × (memcmp m a b len ≡ byte_difference (m (a + i)) (m (b + i))))
unfolding memcmp
memcmp_lem m a b zero = inl (λ i p. absurd (omega arith), refl)
memcmp_lem m a b (suc len) = elim (Bool-cases (m a == m b)) [
  | inl e ↦
      let same : m a ≡ m b = ground arith in
      elim (memcmp_lem m (a + 1) (b + 1) len) [
        | inl (h, r) ↦ inl (Agree-suc m a b len same h, rw e r)
        | inr (i, p, h, ne, r) ↦
            inr (suc i, omega arith, Agree-suc m a b i same h, ground arith, rw e (ground arith))
      ]
  | inr e ↦ inr (0, omega arith, λ i p. absurd (omega arith), ground arith, rw e (ground arith))
]
