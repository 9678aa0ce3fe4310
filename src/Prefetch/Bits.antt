-- ===== src/Prefetch/Bits.antt =====
-- The bits that intel-prefetch/intel-prefetch-disable.c changes in MSR 0x1a0 of a Core 2, and what
-- its report shows of them.
use uarch_configure.Common.{
  one_of, ℕ, ◌+◌, ◌*◌, ◌^◌, ◌≤◌, ◌<◌, ◌≡◌, refl, ap, arith, ◌==◌, if◌then◌else◌, Bool, true,
  Bool-cases, inl, inr,
}
use uarch_configure.Common.{
  ==→eq, ltb, ltb→lt, ltb→le, ◌⊎◌, passes_below, passes_below-at, [], ◌∷◌, bit_and, bit_or,
}
use uarch_configure.Common.Bits.{
  bit, bit-le-one, bits_ext, bit-bit_and, bit-bit_or, bit_and-pow, bit-complement, bit_above,
  pow_pos,
}
use uarch_configure.Prefetch.Cores.{flag, core2_flags, core2_mask, core2_unmask}

-- The prefetcher bits of MSR 0x1a0: 9, 19, 37 and 39.
abbrev pub is_prefetch_bit : ℕ → Bool
is_prefetch_bit k = one_of k (9 ∷ 19 ∷ 37 ∷ 39 ∷ [])

mask_table : passes_below 64 (λ k. bit core2_mask k == (if is_prefetch_bit k then 1 else 0)) ≡ true
unfolding passes_below
mask_table = refl

bit-core2_mask : (k : ℕ) → k < 64 → bit core2_mask k ≡ (if is_prefetch_bit k then 1 else 0)
bit-core2_mask k h = ==→eq _ _ (passes_below-at 64 _ mask_table k h)

-- Disabling sets the four prefetcher bits of a register and keeps the other ones; enabling clears
-- these four and keeps the other ones.
pub core2_bits :
    (r k : ℕ)
    → r < 2 ^ 64
    → k < 64
    → (bit (bit_or r core2_mask) k ≡ (if is_prefetch_bit k then 1 else bit r k))
      × (bit (bit_and r core2_unmask) k ≡ (if is_prefetch_bit k then 0 else bit r k))
core2_bits r k hr hk = (
  ground (arith, bit-bit_or r core2_mask k, bit-core2_mask k hk, bit-le-one r k),
  ground (
    arith,
    bit-bit_and r core2_unmask k,
    bit-complement 64 core2_mask k (omega arith) hk,
    bit-core2_mask k hk,
    bit-le-one r k,
  ),
)

-- A bit is in the mask or in its complement, or it is above bit 63, where all are clear.
mask_or_unmask :
    (r k : ℕ)
    → r < 2 ^ 64
    → (bit core2_unmask k + bit core2_mask k ≡ 1)
      ⊎ ((bit r k ≡ 0) × (bit core2_unmask k ≡ 0) × (bit core2_mask k ≡ 0))
mask_or_unmask r k hr = elim (Bool-cases (ltb k 64)) [
  | inl h ↦ inl (bit-complement 64 core2_mask k (omega arith) (ltb→lt k 64 h))
  | inr h ↦
      let above : 64 ≤ k = ltb→le k 64 h in
      inr (
        bit_above 64 r k hr above,
        bit_above 64 core2_unmask k (omega arith) above,
        bit_above 64 core2_mask k (omega arith) above,
      )
]

-- Enabling what was disabled gives what enabling at once gives, and disabling what was enabled
-- gives what disabling at once gives.
pub core2_undo :
    (r : ℕ)
    → r < 2 ^ 64
    → (bit_and (bit_or r core2_mask) core2_unmask ≡ bit_and r core2_unmask)
      × (bit_or (bit_and r core2_unmask) core2_mask ≡ bit_or r core2_mask)
core2_undo r h = (
  bits_ext _ _ λ k. omega (
    arith,
    bit-bit_and (bit_or r core2_mask) core2_unmask k,
    bit-bit_or r core2_mask k,
    bit-bit_and r core2_unmask k,
    mask_or_unmask r k h,
    bit-le-one r k,
  ),
  bits_ext _ _ λ k. omega (
    arith,
    bit-bit_or (bit_and r core2_unmask) core2_mask k,
    bit-bit_or r core2_mask k,
    bit-bit_and r core2_unmask k,
    mask_or_unmask r k h,
    bit-le-one r k,
  ),
)

flag_set : (x k : ℕ) → bit x k ≡ 1 → flag x k ≡ b'N'
flag_set x k e = ground (arith, bit_and-pow k x, pow_pos k, ap (λ t. t * 2 ^ k) e)

flag_clear : (x k : ℕ) → bit x k ≡ 0 → flag x k ≡ b'Y'
flag_clear x k e = ground (arith, bit_and-pow k x, ap (λ t. t * 2 ^ k) e)

-- What the report shows after disabling is `N` for each prefetcher, and after enabling `Y`.
pub core2_report :
    (r : ℕ)
    → r < 2 ^ 64
    → (core2_flags (bit_or r core2_mask) ≡ b'N' ∷ b'N' ∷ b'N' ∷ b'N' ∷ [])
      × (core2_flags (bit_and r core2_unmask) ≡ b'Y' ∷ b'Y' ∷ b'Y' ∷ b'Y' ∷ [])
core2_report r h = (
  flags_eq (bit_or r core2_mask) b'N' (shows_n 9 refl (omega arith)) (shows_n 19 refl (omega arith))
      (shows_n 37 refl (omega arith)) (shows_n 39 refl (omega arith)),
  flags_eq (bit_and r core2_unmask) b'Y' (shows_y 9 refl (omega arith))
      (shows_y 19 refl (omega arith)) (shows_y 37 refl (omega arith))
      (shows_y 39 refl (omega arith)),
)
  where
    flags_eq :
        (x c : ℕ)
        → flag x 9 ≡ c
        → flag x 19 ≡ c
        → flag x 37 ≡ c
        → flag x 39 ≡ c
        → core2_flags x ≡ c ∷ c ∷ c ∷ c ∷ []
    flags_eq x c e₁ e₂ e₃ e₄ = cc

    shows_n : (k : ℕ) → is_prefetch_bit k ≡ true → k < 64 → flag (bit_or r core2_mask) k ≡ b'N'
    shows_n k p l = flag_set _ k (ground (arith, core2_bits r k h l))

    shows_y : (k : ℕ) → is_prefetch_bit k ≡ true → k < 64 → flag (bit_and r core2_unmask) k ≡ b'Y'
    shows_y k p l = flag_clear _ k (ground (arith, core2_bits r k h l))
