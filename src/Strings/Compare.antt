-- ===== src/Strings/Compare.antt =====
-- strncmp returns 0 exactly when the two strings agree up to the first NUL or the first n bytes.
use native.Mathlib.Decide.{ℕ_discrete}
use cheeri_os.Common.{
  ℕ, zero, suc, ◌+◌, ◌≤◌, ◌<◌, ◌≡◌, ◌≢◌, ◌↔◌, ◌⊎◌, inl, inr, refl, arith, Mem, load8,
}
use cheeri_os.Strings.{strncmp_loop, strncmp}

-- The strings at `s1` and `s2` agree on the `k` bytes from `i` on, or up to a common NUL there.
abbrev pub AgreeFrom : Mem → ℕ → ℕ → ℕ → ℕ → Type 0
AgreeFrom m s1 s2 i k =
    (j : ℕ)
    → i ≤ j
    → j < i + k
    → ((t : ℕ) → i ≤ t → t < j → load8 m (s1 + t) ≢ 0)
    → load8 m (s1 + j) ≡ load8 m (s2 + j)

module _ (m : Mem) (s1 s2 : ℕ) where
  pub AgreeFrom-step :
      (i k : ℕ)
      → load8 m (s1 + i) ≡ load8 m (s2 + i)
      → ((load8 m (s1 + i) ≡ 0) ⊎ AgreeFrom m s1 s2 (i + 1) k)
      → AgreeFrom m s1 s2 i (suc k)
  AgreeFrom-step i k e later j le lt nonzero = elim (ℕ_discrete j i) [
    | yes same ↦ rw same e
    | no other ↦ elim later [
      | inl nul ↦ absurd (nonzero i (omega arith) (omega arith) nul)
      | inr more ↦ more j (omega arith) (omega arith) (λ t a b. nonzero t (omega arith) b)
    ]
  ]

  pub AgreeFrom-tail :
      (i k : ℕ) → AgreeFrom m s1 s2 i (suc k) → load8 m (s1 + i) ≢ 0 → AgreeFrom m s1 s2 (i + 1) k
  AgreeFrom-tail i k h ne j le lt nonzero = h j (omega arith) (omega arith) (λ t a b.
      elim (ℕ_discrete t i) [ yes same ↦ rw same ne | no other ↦ nonzero t (omega arith) b ])

  strncmp_loop-agree : (k i : ℕ) → strncmp_loop k m s1 s2 i ≡ 0 → AgreeFrom m s1 s2 i k
  unfolding strncmp_loop
  strncmp_loop-agree zero i e = λ j le lt nonzero. absurd (omega arith)
  strncmp_loop-agree (suc k) i e = elim (ℕ_discrete (load8 m (s1 + i)) 0) [
    | yes nul ↦ AgreeFrom-step i k (ground arith) (inl nul)
    | no ne ↦
        let same : load8 m (s1 + i) ≡ load8 m (s2 + i) = ground arith in
        let rest : strncmp_loop k m s1 s2 (i + 1) ≡ 0 = ground arith in
        AgreeFrom-step i k same (inr (strncmp_loop-agree k (i + 1) rest))
  ]

  agree-strncmp_loop : (k i : ℕ) → AgreeFrom m s1 s2 i k → strncmp_loop k m s1 s2 i ≡ 0
  unfolding strncmp_loop
  agree-strncmp_loop zero i h = refl
  agree-strncmp_loop (suc k) i h =
      let same : load8 m (s1 + i) ≡ load8 m (s2 + i) =
        h i (omega arith) (omega arith) (λ t a b. absurd (omega arith)) in
      elim (ℕ_discrete (load8 m (s1 + i)) 0) [
        | yes nul ↦ ground arith
        | no ne ↦ ground (arith, agree-strncmp_loop k (i + 1) (AgreeFrom-tail i k h ne))
      ]

  -- strncmp returns 0 exactly when, for each of the first n places that no NUL of `s1` precedes, the
  -- two strings hold the same byte there.
  pub strncmp-agree : (n : ℕ) → (strncmp m s1 s2 n ≡ 0) ↔ AgreeFrom m s1 s2 0 n
  unfolding strncmp
  strncmp-agree n = (strncmp_loop-agree n 0, agree-strncmp_loop n 0)
