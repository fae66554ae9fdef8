-- ===== src/Kernel/Calls/Open.antt =====
-- open and close of student-distrib/system_call.c together.
use native.Mathlib.Decide.{ℕ_discrete}
use mathlib.Core.Path.{subst}
use cheeri_os.Common.{
  ℕ, ◌≤◌, ◌<◌, ◌≡◌, ◌≢◌, ◌∙◌, inl, inr, refl, sym, arith, true, false, ◌==◌, ◌||◌, ==_iff, ne→==,
  Bool-cases, ltb, slt, minus_one,
}
use cheeri_os.Kernel.State.{Kernel, closed, memory, descriptor, set_descriptor}
use cheeri_os.Kernel.Calls.{open_entry, close, min_valid_fd, max_valid_fd}
use cheeri_os.Kernel.Calls.Descriptors.{
  IsOpenTable, IsLeastFree, open_entry-least, opened, descriptor-set,
}

pub valid_fd : (fd : ℕ) → fd < 8 → 2 ≤ fd → (slt fd min_valid_fd || slt max_valid_fd fd) ≡ false
valid_fd fd lt le = ground arith

module _ {D : Type 0} where
  close-used :
      (fd : ℕ) (k : Kernel D)
      → 2 ≤ fd
      → fd < 8
      → (descriptor k fd).flags ≢ 0
      → close fd k ≡ (0, set_descriptor fd closed k)
  unfolding close
  close-used fd k le lt used = rw (valid_fd fd lt le, ne→== _ 0 used) refl

  pub close-free :
      (fd : ℕ) (k : Kernel D) → (descriptor k fd).flags ≡ 0 → close fd k ≡ (minus_one, k)
  unfolding close
  close-free fd k free = elim (Bool-cases (slt fd min_valid_fd || slt max_valid_fd fd)) [
    | inl e ↦ rw e refl
    | inr e ↦ rw (e, free) refl
  ]

  open_entry-IsLeastFree :
      (dentry fd : ℕ) (k : Kernel D)
      → IsLeastFree k fd
      → open_entry dentry k ≡ (fd, set_descriptor fd (opened dentry fd k) k)
  open_entry-IsLeastFree dentry fd k (le, lt, free, before) = elim (open_entry-least dentry k) [
    | inl (fd', (le', lt', free', before'), found) ↦ elim (ℕ_discrete fd' fd) [
      | yes same ↦
          subst (λ i. open_entry dentry k ≡ (i, set_descriptor i (opened dentry i k) k)) same found
      | no ne ↦ elim (Bool-cases (ltb fd' fd)) [
        | inl less ↦ absurd (before fd' le' (ground (arith, less)) free')
        | inr more ↦ absurd (before' fd le (ground (arith, more, ne)) free)
      ]
    ]
    | inr (used, _) ↦ absurd (used fd le lt free)
  ]

  free-closed :
      (fd : ℕ) (k : Kernel D)
      → IsOpenTable k
      → fd < 8
      → (descriptor k fd).flags ≡ 0
      → descriptor k fd ≡ closed
  free-closed fd k v lt free = elim (v fd lt).flag [ inl (_, e) ↦ e | inr e ↦ absurd (omega arith) ]

  -- When a descriptor is free, the one that open returns is a valid one, close of it returns 0, every
  -- descriptor is then as it was before open, and a second close of it returns -1 and changes nothing.
  pub close-open_entry :
      (dentry fd : ℕ) (k : Kernel D)
      → IsOpenTable k
      → IsLeastFree k fd
      → let (new, k1) = open_entry dentry k in
        let (value, k2) = close new k1 in
        (new ≡ fd)
        × (value ≡ 0)
        × ((j : ℕ) → descriptor k2 j ≡ descriptor k j)
        × (memory k2 ≡ memory k)
        × (close new k2 ≡ (minus_one, k2))
  close-open_entry dentry fd k v least =
      let (le, lt, free, before) = least in
      let k1 = set_descriptor fd (opened dentry fd k) k in
      let k2 = set_descriptor fd closed k1 in
      let same : (fd == fd) ≡ true = (==_iff fd fd).1 refl in
      let one : (descriptor k1 fd).flags ≡ 1 =
        rw (descriptor-set fd (opened dentry fd k) k fd, same) refl in
      let used : (descriptor k1 fd).flags ≢ 0 = λ e. absurd (omega arith) in
      let was : descriptor k fd ≡ closed = free-closed fd k v lt free in
      let shut : (descriptor k2 fd).flags ≡ 0 = rw (descriptor-set fd closed k1 fd, same) refl in
      let back : (j : ℕ) → descriptor k2 j ≡ descriptor k j = λ j.
        descriptor-set fd closed k1 j
        ∙ (rw (descriptor-set fd (opened dentry fd k) k j) (elim (Bool-cases (j == fd)) [
          | inl e ↦ let at : j ≡ fd = (==_iff j fd).0 e in rw (e, at) (sym was)
          | inr e ↦ rw e refl
        ])) in
      rw
        (
          open_entry-IsLeastFree dentry fd k least,
          close-used fd k1 le lt used,
          close-free fd k2 shut,
        )
        (refl, refl, λ j. back j, refl, refl)
