-- ===== src/Strings/Copy.antt =====
-- What strcpy and strncpy write, and that they write nothing else, where source and destination do
-- not overlap.
use native.Mathlib.Decide.{ℕ_discrete}
use cheeri_os.Common.{
  ℕ, zero, suc, ◌+◌, ◌≤◌, ◌<◌, ◌≡◌, ◌≢◌, ◌⊎◌, some, sym, ne→==, ◌==◌, false, arith, Mem, load8,
  store8, Written, Written-zero, Written-store8, Written-load8, word, if◌then◌else◌, ltb, ◌∙◌,
}
use cheeri_os.Strings.{strcpy_loop, strcpy, strncpy_loop, strncpy_pad, strncpy}
use cheeri_os.Strings.Length.{IsString}

-- The `n` bytes at `p` and the `k` bytes at `q` have none in common.
abbrev pub Disjoint : ℕ → ℕ → ℕ → ℕ → Type 0
Disjoint p n q k = (p + n ≤ q) ⊎ (q + k ≤ p)

module _ (m0 : Mem) (dest src : ℕ) where
  strcpy_loop-Written :
      (k i n : ℕ) {m : Mem}
      → IsString m0 src n
      → Disjoint dest (n + 1) src (n + 1)
      → i ≤ n
      → n < i + k
      → Written m0 dest i (λ j. load8 m0 (src + j)) m
      → (m' : Mem) × (strcpy_loop k m dest src i ≡ some m')
        × Written m0 dest (n + 1) (λ j. load8 m0 (src + j)) m'
  unfolding strcpy_loop
  strcpy_loop-Written zero i n str apart le lt w = absurd (omega arith)
  strcpy_loop-Written (suc k) i n {m} str apart le lt w = elim (ℕ_discrete i n) [
    | yes e ↦
        let nul : load8 m (src + i) ≡ 0 = same ∙ rw e str.ends in
        (
          store8 m (dest + i) 0,
          rw (nul, strcpy_loop),
          rw (← e) (Written-store8 0 w (rw e (sym str.ends))),
        )
    | no ne ↦
        let other : load8 m (src + i) ≢ 0 = rw same (str.nonzero i (omega arith)) in
        let (m', runs, w') =
          strcpy_loop-Written k (i + 1) n str apart (omega arith) (omega arith)
            (Written-store8 (load8 m (src + i)) w (omega (arith, same))) in
        (m', ground (arith, other, runs), w')
  ]
    where
      same : load8 m (src + i) ≡ load8 m0 (src + i)
      same = Written-load8 (src + i) w (omega arith)

  -- strcpy of a string of n bytes that fits beside its source ends, writes the n bytes and the NUL to
  -- the destination, and leaves every other byte as it was.
  pub strcpy-Written :
      (n : ℕ)
      → IsString m0 src n
      → n < word
      → Disjoint dest (n + 1) src (n + 1)
      → (m : Mem) × (strcpy m0 dest src ≡ some m)
        × Written m0 dest (n + 1) (λ j. load8 m0 (src + j)) m
  unfolding strcpy
  strcpy-Written n str lt apart =
      strcpy_loop-Written word 0 n str apart (omega arith) (omega arith)
        (Written-zero m0 dest (λ j. load8 m0 (src + j)))

module _ (m0 : Mem) (dest src n : ℕ) where
  -- byte j of the destination: that of the source before its NUL, at `len`, and 0 from there on
  abbrev pub padded : ℕ → ℕ → ℕ
  padded len j = if ltb j len then load8 m0 (src + j) else 0

  strncpy_pad-Written :
      (k i len : ℕ) {m : Mem}
      → len ≤ i
      → i + k ≡ n
      → Written m0 dest i (padded len) m
      → Written m0 dest n (padded len) (strncpy_pad k m dest i)
  unfolding strncpy_pad
  strncpy_pad-Written zero i len le e w = let e' : i ≡ n = omega arith in rw (← e') w
  strncpy_pad-Written (suc k) i len le e w =
      strncpy_pad-Written k (i + 1) len (omega arith) (omega arith)
        (Written-store8 0 w (ground arith))

  strncpy_loop-Written :
      (k i len : ℕ) {m : Mem}
      → IsString m0 src len
      → Disjoint dest n src (len + 1)
      → i ≤ len
      → i + k ≡ n
      → Written m0 dest i (padded len) m
      → Written m0 dest n (padded len) (strncpy_loop k m dest src i)
  unfolding strncpy_loop
  strncpy_loop-Written zero i len str apart le e w = let e' : i ≡ n = omega arith in rw (← e') w
  strncpy_loop-Written (suc k) i len {m} str apart le e w = elim (ℕ_discrete i len) [
    | yes end ↦
        let nul : load8 m (src + i) ≡ 0 = same ∙ rw end str.ends in
        rw (nul, strncpy_loop) (strncpy_pad-Written (suc k) i len (omega arith) e w)
    | no ne ↦
        let other : (load8 m (src + i) == 0) ≡ false =
          ne→== _ 0 (rw same (str.nonzero i (omega arith))) in
        rw (other, strncpy_loop)
          (strncpy_loop-Written k (i + 1) len str apart (omega arith) (omega arith)
            (Written-store8 (load8 m (src + i)) w (ground (arith, same))))
  ]
    where
      same : load8 m (src + i) ≡ load8 m0 (src + i)
      same = Written-load8 (src + i) w (omega arith)

  -- strncpy of a string of len bytes writes exactly n bytes: those of the string that precede its NUL
  -- and, after them, zeros; a string of n bytes or more leaves no NUL.
  pub strncpy-Written :
      (len : ℕ)
      → IsString m0 src len
      → Disjoint dest n src (len + 1)
      → Written m0 dest n (padded len) (strncpy m0 dest src n)
  unfolding strncpy
  strncpy-Written len str apart =
      strncpy_loop-Written n 0 len str apart (omega arith) (omega arith)
        (Written-zero m0 dest (padded len))
