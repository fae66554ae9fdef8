-- ===== src/Strings/Length.antt =====
-- strlen finds the first NUL.
use cheeri_os.Common.{ℕ, zero, suc, ◌+◌, ◌≤◌, ◌<◌, ◌≡◌, ◌≢◌, ◌↔◌, some, ap, arith, Mem, load8, word}
use native.Mathlib.Decide.{ℕ_discrete}
use cheeri_os.Strings.{strlen_loop, strlen}

-- `s` points at a string of `n` bytes and its NUL.
pub record IsString (m : Mem) (s n : ℕ) : Type 0 where
  pub nonzero : (i : ℕ) → i < n → load8 m (s + i) ≢ 0
  pub ends : load8 m (s + n) ≡ 0

module _ (m : Mem) (s : ℕ) where
  abbrev pub NonzeroBelow : ℕ → Type 0
  NonzeroBelow n = (i : ℕ) → i < n → load8 m (s + i) ≢ 0

  NonzeroBelow-suc : (n : ℕ) → NonzeroBelow n → load8 m (s + n) ≢ 0 → NonzeroBelow (n + 1)
  NonzeroBelow-suc n before ne i lt = elim (ℕ_discrete i n) [
    | yes e ↦ rw e ne
    | no other ↦ before i (omega arith)
  ]

  strlen_loop-finds :
      (k len n : ℕ) → IsString m s n → len ≤ n → n < len + k → strlen_loop k m s len ≡ some n
  unfolding strlen_loop
  strlen_loop-finds zero len n str le lt = absurd (omega arith)
  strlen_loop-finds (suc k) len n str le lt = ground (
    arith,
    str.nonzero len,
    str.ends,
    λ (e : len ≡ n). ap (λ i. load8 m (s + i)) e,
    strlen_loop-finds k (len + 1) n str,
  )

  strlen_loop_sound :
      (k len n : ℕ)
      → NonzeroBelow len
      → strlen_loop k m s len ≡ some n
      → IsString m s n × (n < len + k)
  unfolding strlen_loop
  strlen_loop_sound zero len n before e = cc
  strlen_loop_sound (suc k) len n before e = elim (ℕ_discrete (load8 m (s + len)) 0) [
    | yes nul ↦
        let eq : len ≡ n = ground arith in
        (record { nonzero = λ i lt. before i (omega arith); ends = rw (← eq) nul }, omega arith)
    | no other ↦
        let rest : strlen_loop k m s (len + 1) ≡ some n = ground arith in
        let (str, lt) = strlen_loop_sound k (len + 1) n (NonzeroBelow-suc len before other) rest in
        (str, omega arith)
  ]

  -- strlen returns n exactly when the first NUL stands n bytes after `s`, and n is a `uint32_t`.
  pub strlen-IsString : (n : ℕ) → (strlen m s ≡ some n) ↔ (IsString m s n × (n < word))
  unfolding strlen
  strlen-IsString n = (
    λ e.
        let (str, lt) = strlen_loop_sound word 0 n (λ i lt. absurd (omega arith)) e in
        (str, omega arith),
    λ (str, lt). strlen_loop-finds word 0 n str (omega arith) (omega arith),
  )
