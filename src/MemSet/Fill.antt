-- ===== src/MemSet/Fill.antt =====
-- memset fills the bytes that it is given.
use cheeri_os.Common.{
  ℕ, zero, suc, ◌+◌, ◌*◌, ◌/◌, ◌%◌, ◌^◌, ◌<◌, ◌≡◌, inl, inr, refl, arith, ◌==◌, Bool-cases, Mem,
  Written, Written-zero, Written-store8_at, Written-store32,
}
use cheeri_os.MemSet.{bytes, stosl, repeated, aligned, memset_top, memset}

-- the bytes of four copies of a byte
repeated-bytes :
    (c : ℕ)
    → c < 256
    → (repeated c % 2 ^ 8 ≡ c)
      × (repeated c / 2 ^ 8 % 2 ^ 8 ≡ c)
      × (repeated c / 2 ^ 16 % 2 ^ 8 ≡ c)
      × (repeated c / 2 ^ 24 % 2 ^ 8 ≡ c)
repeated-bytes c lt = omega arith

module _ (m0 : Mem) (s0 c n0 : ℕ) (small : c < 256) where
  abbrev Filling : ℕ → Mem → Type 0
  Filling i m = Written m0 s0 i (λ j. c) m

  bytes-Filling :
      (k i s : ℕ) {m : Mem} → i + k ≡ n0 → s ≡ s0 + i → Filling i m → Filling n0 (bytes k s c m)
  unfolding bytes
  bytes-Filling zero i s e at w = let e' : i ≡ n0 = omega arith in rw (← e') w
  bytes-Filling (suc k) i s e at w =
      bytes-Filling k (i + 1) (s + 1) (omega arith) (omega arith)
        (Written-store8_at s c (i + 1) w at refl (omega arith))

  stosl-Filling :
      (k i s : ℕ) {m : Mem}
      → s ≡ s0 + i
      → Filling i m
      → Filling (i + k * 4) (stosl k s (repeated c) m)
  unfolding stosl
  stosl-Filling zero i s at w = let e : i ≡ i + 0 * 4 = omega arith in rw (← e) w
  stosl-Filling (suc k) i s at w =
      let (a, b, d, e) = repeated-bytes c small in
      let count : i + suc k * 4 ≡ i + 4 + k * 4 = omega arith in
      rw count (
        stosl-Filling k (i + 4) (s + 4) (omega arith)
          (rw at (Written-store32 (repeated c) w a b d e)))

  aligned-Filling :
      (k i s : ℕ) {m : Mem} → i + k ≡ n0 → s ≡ s0 + i → Filling i m → Filling n0 (aligned k s c m)
  unfolding aligned
  aligned-Filling k i s e at w =
      bytes-Filling (k % 4) (i + k / 4 * 4) (s + k / 4 * 4) (omega arith) (omega arith)
        (stosl-Filling (k / 4) i s at w)

  memset_top-Filling :
      (k i s : ℕ) {m : Mem}
      → i + k ≡ n0
      → s ≡ s0 + i
      → Filling i m
      → Filling n0 (memset_top k s c m)
  unfolding memset_top
  memset_top-Filling zero i s e at w = let e' : i ≡ n0 = omega arith in rw (← e') w
  memset_top-Filling (suc k) i s e at w = elim (Bool-cases (s % 4 == 0)) [
    | inl even ↦ rw (even, memset_top) (aligned-Filling (suc k) i s e at w)
    | inr odd ↦
        rw (odd, memset_top)
          (memset_top-Filling k (i + 1) (s + 1) (omega arith) (omega arith)
            (Written-store8_at s c (i + 1) w at refl (omega arith)))
  ]

-- memset writes the low byte of c to the n bytes from s on, and nothing else.
pub memset-Written : (m : Mem) (s c n : ℕ) → Written m s n (λ j. c % 256) (memset s c n m)
unfolding memset
memset-Written m s c n =
    memset_top-Filling m s (c % 256) n (omega arith) n 0 s (omega arith) (omega arith)
      (Written-zero m s (λ j. c % 256))
