-- ===== src/Kernel/Calls/Descriptors.antt =====
-- The descriptors of the process that runs: what the system calls keep true of them.
use native.Mathlib.Decide.{ℕ_discrete}
use cheeri_os.Common.{
  ℕ, zero, suc, ◌+◌, ◌≤◌, ◌<◌, ◌≡◌, ◌≢◌, ◌⊎◌, inl, inr, refl, arith, true, false, ◌==◌, ==_iff,
  ne→==, Bool-cases, if◌then◌else◌, minus_one, load32,
}
use cheeri_os.FileSystem.Layout.{file_type, inode_num}
use cheeri_os.Kernel.State.{
  Kernel, std_table, FileDescriptor, closed, memory, descriptor, set_descriptor,
}
use cheeri_os.Kernel.Calls.{free_descriptor, open_entry, table_of}

-- Descriptor `fd` is free or in use; the terminal's two are in use, and a free one is all zero.
pub record IsDescriptor (fd : ℕ) (f : FileDescriptor) : Type 0 where
  pub flag : (f.flags ≡ 0) × (f ≡ closed) ⊎ (f.flags ≡ 1)
  pub terminal : fd < 2 → (f.flags ≡ 1) × (f.fjt_ptr ≡ std_table)

module _ {D : Type 0} where
  abbrev pub IsOpenTable : Kernel D → Type 0
  IsOpenTable k = (fd : ℕ) → fd < 8 → IsDescriptor fd (descriptor k fd)

  -- what a free descriptor of the six is
  abbrev pub IsLeastFree : Kernel D → ℕ → Type 0
  IsLeastFree k fd =
      (2 ≤ fd)
      × (fd < 8)
      × ((descriptor k fd).flags ≡ 0)
      × ((j : ℕ) → 2 ≤ j → j < fd → (descriptor k j).flags ≢ 0)

  abbrev pub AllUsed : Kernel D → Type 0
  AllUsed k = (j : ℕ) → 2 ≤ j → j < 8 → (descriptor k j).flags ≢ 0

  free_descriptor-cases :
      (k : Kernel D) (n i : ℕ)
      → i + n ≡ 6
      → ((j : ℕ) → 2 ≤ j → j < i + 2 → (descriptor k j).flags ≢ 0)
      → ((fd : ℕ) × IsLeastFree k fd × (free_descriptor n i k ≡ fd))
        ⊎ (AllUsed k × (free_descriptor n i k ≡ minus_one))
  unfolding free_descriptor
  free_descriptor-cases k zero i e used = inr (λ j a b. used j a (omega arith), refl)
  free_descriptor-cases k (suc n) i e used = elim (ℕ_discrete (descriptor k (i + 2)).flags 0) [
    | yes free ↦ inl (i + 2, (omega arith, omega arith, free, used), rw (free, free_descriptor))
    | no other ↦
        rw (ne→== _ 0 other, free_descriptor)
          (free_descriptor-cases k n (i + 1) (omega arith) (λ j a b. elim (ℕ_discrete j (i + 2)) [
            | yes same ↦ rw same other
            | no ne ↦ used j a (omega arith)
          ]))
  ]

  -- what open puts into descriptor `fd`, from the dentry_t at `dentry`
  abbrev pub opened : (dentry fd : ℕ) → Kernel D → FileDescriptor
  opened dentry fd k =
      let type = load32 (memory k) (file_type dentry) in
      record {
        fjt_ptr = table_of type (descriptor k fd).fjt_ptr;
        inode = if type == 2 then load32 (memory k) (inode_num dentry) else 0;
        file_pos = 0;
        flags = 1;
      }

  -- Once the name is found, open takes the free descriptor of least number among 2 to 7, and changes no
  -- other; if all six are in use it returns -1 and changes nothing.
  pub open_entry-least :
      (dentry : ℕ) (k : Kernel D)
      → ((fd : ℕ) × IsLeastFree k fd
          × (open_entry dentry k ≡ (fd, set_descriptor fd (opened dentry fd k) k)))
        ⊎ (AllUsed k × (open_entry dentry k ≡ (minus_one, k)))
  unfolding open_entry
  open_entry-least dentry k =
      elim (free_descriptor-cases k 6 0 refl (λ j a b. absurd (omega arith))) [
        | inl (fd, least, found) ↦
            let valid : (fd == minus_one) ≡ false = ground (arith, least) in
            inl (fd, least, rw (found, valid))
        | inr (used, found) ↦ inr (used, rw found)
      ]

  pub descriptor-set :
      (fd : ℕ) (f : FileDescriptor) (k : Kernel D) (j : ℕ)
      → descriptor (set_descriptor fd f k) j ≡ (if j == fd then f else descriptor k j)
  descriptor-set fd f k j =
      let same : (k.curr == k.curr) ≡ true = (==_iff k.curr k.curr).1 refl in rw (same, descriptor)

  pub set_descriptor-IsOpenTable :
      (fd : ℕ) (f : FileDescriptor) (k : Kernel D)
      → IsOpenTable k
      → IsDescriptor fd f
      → IsOpenTable (set_descriptor fd f k)
  set_descriptor-IsOpenTable fd f k v new j lt =
      rw (descriptor-set fd f k j) (elim (Bool-cases (j == fd)) [
        | inl e ↦ let same : j ≡ fd = (==_iff j fd).0 e in rw (e, same) new
        | inr e ↦ rw e (v j lt)
      ])
