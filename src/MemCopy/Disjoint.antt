-- ===== src/MemCopy/Disjoint.antt =====
-- memcpy between places that do not overlap.
use cheeri_os.Common.{
  ℕ, zero, suc, ◌+◌, ◌*◌, ◌/◌, ◌%◌, ◌≤◌, ◌<◌, ◌≡◌, ◌⊎◌, inl, inr, refl, ap, ◌∙◌, load32-bytes,
  arith, ◌==◌, Bool-cases, Mem, load8, load32, Written, Written-zero, Written-load8,
  Written-store8_at, Written-store32,
}
use cheeri_os.MemCopy.{bytes, double_words, aligned, memcpy}

module _ (m0 : Mem) (dest0 src0 n0 : ℕ) (apart : (dest0 + n0 ≤ src0) ⊎ (src0 + n0 ≤ dest0)) where
  abbrev Copying : ℕ → Mem → Type 0
  Copying i m = Written m0 dest0 i (λ j. load8 m0 (src0 + j)) m

  bytes-Copying :
      (k i dest src : ℕ) {m : Mem}
      → i + k ≡ n0
      → dest ≡ dest0 + i
      → src ≡ src0 + i
      → Copying i m
      → Copying n0 (bytes k dest src m)
  unfolding bytes
  bytes-Copying zero i dest src e d s w = let e' : i ≡ n0 = omega arith in rw (← e') w
  bytes-Copying (suc k) i dest src {m} e d s w =
      let same : load8 m src ≡ load8 m0 src = Written-load8 src w (omega arith) in
      let from : load8 m0 src ≡ load8 m0 (src0 + i) = ap (load8 m0) s in
      bytes-Copying k (i + 1) (dest + 1) (src + 1) (omega arith) (omega arith) (omega arith)
        (Written-store8_at dest (load8 m src) (i + 1) w d refl (omega (arith, same, from)))

  double_words-Copying :
      (k i dest src : ℕ) {m : Mem}
      → i + k * 4 ≤ n0
      → dest ≡ dest0 + i
      → src ≡ src0 + i
      → Copying i m
      → Copying (i + k * 4) (double_words k dest src m)
  unfolding double_words
  double_words-Copying zero i dest src le d s w = let e : i ≡ i + 0 * 4 = omega arith in rw (← e) w
  double_words-Copying (suc k) i dest src {m} le d s w =
      let word = load32-bytes m src in
      let count : i + suc k * 4 ≡ i + 4 + k * 4 = omega arith in
      rw count (
        double_words-Copying k (i + 4) (dest + 4) (src + 4) (omega arith) (omega arith)
          (omega arith)
          (rw d (
            Written-store32 (load32 m src) w (word.0 ∙ same src i (omega arith) s)
              (word.1 ∙ same (src + 1) (i + 1) (omega arith) (omega arith))
              (word.2 ∙ same (src + 2) (i + 2) (omega arith) (omega arith))
              (word.3 ∙ same (src + 3) (i + 3) (omega arith) (omega arith)))))
    where
      same : (a j : ℕ) → j < n0 → a ≡ src0 + j → load8 m a ≡ load8 m0 (src0 + j)
      same a j lt e = Written-load8 a w (omega arith) ∙ ap (load8 m0) e

  aligned-Copying :
      (k i dest src : ℕ) {m : Mem}
      → i + k ≡ n0
      → dest ≡ dest0 + i
      → src ≡ src0 + i
      → Copying i m
      → Copying n0 (aligned k dest src m)
  unfolding aligned
  aligned-Copying k i dest src e d s w =
      bytes-Copying (k % 4) (i + k / 4 * 4) (dest + k / 4 * 4) (src + k / 4 * 4) (omega arith)
        (omega arith) (omega arith) (double_words-Copying (k / 4) i dest src (omega arith) d s w)

  memcpy_top-Copying :
      (k i dest src : ℕ) {m : Mem}
      → i + k ≡ n0
      → dest ≡ dest0 + i
      → src ≡ src0 + i
      → Copying i m
      → Copying n0 (memcpy k dest src m)
  unfolding memcpy
  memcpy_top-Copying zero i dest src e d s w = let e' : i ≡ n0 = omega arith in rw (← e') w
  memcpy_top-Copying (suc k) i dest src {m} e d s w = elim (Bool-cases (dest % 4 == 0)) [
    | inl even ↦ rw (even, memcpy) (aligned-Copying (suc k) i dest src e d s w)
    | inr odd ↦
        let same : load8 m src ≡ load8 m0 src = Written-load8 src w (omega arith) in
        let from : load8 m0 src ≡ load8 m0 (src0 + i) = ap (load8 m0) s in
        rw (odd, memcpy)
          (memcpy_top-Copying k (i + 1) (dest + 1) (src + 1) (omega arith) (omega arith)
            (omega arith)
            (Written-store8_at dest (load8 m src) (i + 1) w d refl (omega (arith, same, from))))
  ]

  -- Where the n bytes at the source and at the destination do not overlap, memcpy makes the destination
  -- equal to the source and changes no other byte, whatever the alignment.
  pub memcpy-Written : Written m0 dest0 n0 (λ j. load8 m0 (src0 + j)) (memcpy n0 dest0 src0 m0)
  memcpy-Written =
      memcpy_top-Copying n0 0 dest0 src0 (omega arith) (omega arith) (omega arith)
        (Written-zero m0 dest0 (λ j. load8 m0 (src0 + j)))
