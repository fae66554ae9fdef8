-- ===== src/MemSet/Move.antt =====
-- memmove copies between places that may overlap.
use cheeri_os.Common.{
  ℕ, zero, suc, ◌+◌, ◌-◌, ◌%◌, ◌≤◌, ◌<◌, ◌≡◌, inl, inr, refl, ap, arith, Bool-cases, leb, not, Mem,
  load8, store8, Written, Written-zero, Written-load8, Written-store8_at,
}
use cheeri_os.MemSet.{movsb_up, movsb_down, memmove}

-- One more byte in front.
Written-below :
    {m0 m : Mem} {f g : ℕ → ℕ} (dst n v : ℕ)
    → Written m0 (dst + 1) n g m
    → ((j : ℕ) → g j ≡ f (j + 1))
    → v % 256 ≡ f 0
    → Written m0 dst (n + 1) f (store8 m dst v)
unfolding store8
Written-below {f} {g} dst n v w shift e = record {
  at = λ a. ground (arith, w.at a, e, shift (a - (dst + 1)), first a, later a);
}
  where
    first : (a : ℕ) → a ≡ dst → f (a - dst) ≡ f 0
    first a h = ap f (omega arith)

    later : (a : ℕ) → dst + 1 ≤ a → f (a - (dst + 1) + 1) ≡ f (a - dst)
    later a h = ap f (omega arith)

-- The same bytes, described by other terms.
Written-cong :
    {m0 m : Mem} {f g : ℕ → ℕ} (p n : ℕ) {p' n' : ℕ}
    → p ≡ p'
    → n ≡ n'
    → ((j : ℕ) → g j ≡ f j)
    → Written m0 p n g m
    → Written m0 p' n' f m
Written-cong p n place count same w =
    rw (← place, ← count) (record { at = λ a. ground (arith, w.at a, same (a - p)) })

module _ (m0 : Mem) (dest0 src0 n0 : ℕ) where
  movsb_up-Written :
      (k i dest src : ℕ) {m : Mem}
      → i + k ≡ n0
      → dest0 ≤ src0
      → dest ≡ dest0 + i
      → src ≡ src0 + i
      → Written m0 dest0 i (λ j. load8 m0 (src0 + j)) m
      → Written m0 dest0 n0 (λ j. load8 m0 (src0 + j)) (movsb_up k dest src m)
  unfolding movsb_up
  movsb_up-Written zero i dest src e le d s w =
      Written-cong dest0 i refl (omega arith) (λ j. refl) w
  movsb_up-Written (suc k) i dest src {m} e le d s w =
      let same : load8 m src ≡ load8 m0 src = Written-load8 src w (omega arith) in
      let from : load8 m0 src ≡ load8 m0 (src0 + i) = ap (load8 m0) s in
      movsb_up-Written k (i + 1) (dest + 1) (src + 1) (omega arith) le (omega arith) (omega arith)
        (Written-store8_at dest (load8 m src) (i + 1) w d refl (omega (arith, same, from)))

  movsb_down-Written :
      (k n : ℕ) {m : Mem}
      → k + n ≡ n0
      → src0 < dest0
      → Written m0 (dest0 + k) n (λ j. load8 m0 (src0 + k + j)) m
      → Written m0 dest0 n0 (λ j. load8 m0 (src0 + j)) (movsb_down k dest0 src0 m)
  unfolding movsb_down
  movsb_down-Written zero n e lt w =
      Written-cong (dest0 + 0) n (omega arith) (omega arith) (λ j. ap (load8 m0) (omega arith)) w
  movsb_down-Written (suc k) n {m} e lt w =
      let w' =
        Written-cong {f = λ j. load8 m0 (src0 + k + (j + 1))} (dest0 + suc k) n {p' = dest0 + k + 1}
          (omega arith) refl (λ j. ap (load8 m0) (omega arith)) w in
      let same : load8 m (src0 + k) ≡ load8 m0 (src0 + k) =
        Written-load8 (src0 + k) w (omega arith) in
      let here : load8 m0 (src0 + k) ≡ load8 m0 (src0 + k + 0) = ap (load8 m0) (omega arith) in
      movsb_down-Written k (n + 1) (omega arith) lt (
        Written-below (dest0 + k) n (load8 m (src0 + k)) w' (λ j. refl) (omega (arith, same, here)))

-- memmove writes to the n bytes at dest what the n bytes at src held before, however the two overlap,
-- and no other byte. It leaves the direction flag set exactly when dest is above src.
pub memmove-Written :
    (m0 : Mem) (dest src n : ℕ)
    → let (flag, m) = memmove dest src n m0 in
      (flag ≡ not (leb dest src)) × Written m0 dest n (λ j. load8 m0 (src + j)) m
unfolding memmove
memmove-Written m0 dest src n = elim (Bool-cases (leb dest src)) [
  | inl e ↦ rw e (
    refl,
    movsb_up-Written m0 dest src n n 0 dest src (omega arith) (ground (arith, e)) (omega arith)
        (omega arith) (Written-zero m0 dest (λ j. load8 m0 (src + j))),
  )
  | inr e ↦ rw e (
    refl,
    movsb_down-Written m0 dest src n n 0 (omega arith) (ground (arith, e))
        (Written-zero m0 (dest + n) (λ j. load8 m0 (src + n + j))),
  )
]
