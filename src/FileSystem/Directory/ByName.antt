-- ===== src/FileSystem/Directory/ByName.antt =====
-- read_dentry_by_name finds the first of the 63 entries that has the name.
use native.Mathlib.Decide.{ℕ_discrete}
use cheeri_os.Common.{
  ℕ, zero, suc, ◌+◌, ◌≤◌, ◌<◌, ◌≡◌, ◌≢◌, ◌⊎◌, inl, inr, refl, ap, some, arith, ◌==◌, ne→==, Mem,
  minus_one, word, true, false, ==_iff, not-lt→ltb, lt→ltb,
}
use cheeri_os.Strings.{strncmp, strlen}
use cheeri_os.Strings.Length.{IsString, strlen-IsString}
use cheeri_os.Strings.Compare.{AgreeFrom, strncmp-agree}
use cheeri_os.Strings.Copy.{Disjoint}
use cheeri_os.FileSystem.Layout.{Fs, dir_ent, file_name, num_files, num_files_name, dentry_size}
use cheeri_os.FileSystem.Directory.{copy_dentry, search_dentry, read_dentry_by_name}
use cheeri_os.FileSystem.Directory.Entry.{Copied, copy_dentry-Copied}

-- Entry `i` has the name at `fname`: the same bytes up to a NUL or the 32nd.
abbrev pub HasName : Mem → Fs → ℕ → ℕ → Type 0
HasName m fs fname i = AgreeFrom m (file_name (dir_ent fs i)) fname 0 num_files_name

module _ (m0 : Mem) (fs : Fs) (fname dentry : ℕ) where
  abbrev pub NoneHas : ℕ → ℕ → Type 0
  NoneHas i e = (j : ℕ) → i ≤ j → j < e → ¬ HasName m0 fs fname j

  differs :
      (i : ℕ)
      → ¬ HasName m0 fs fname i
      → (strncmp m0 (file_name (dir_ent fs i)) fname num_files_name == 0) ≡ false
  differs i h =
      ne→== _ 0 (λ e. h ((strncmp-agree m0 (file_name (dir_ent fs i)) fname num_files_name).0 e))

  search_dentry-first :
      (k i e : ℕ)
      → i ≤ e
      → e < i + k
      → HasName m0 fs fname e
      → NoneHas i e
      → search_dentry k fs fname dentry i m0 ≡ copy_dentry fs e dentry m0
  unfolding search_dentry
  search_dentry-first zero i e le lt has before = absurd (omega arith)
  search_dentry-first (suc k) i e le lt has before = elim (ℕ_discrete i e) [
    | yes here ↦
        let has' : HasName m0 fs fname i = rw here has in
        let found : (strncmp m0 (file_name (dir_ent fs i)) fname num_files_name == 0) ≡ true =
          (==_iff _ 0).1
            ((strncmp-agree m0 (file_name (dir_ent fs i)) fname num_files_name).1 has') in
        rw (found, search_dentry) (ap (λ j. copy_dentry fs j dentry m0) here)
    | no later ↦
        rw (differs i (before i (omega arith) (omega arith)), search_dentry)
          (search_dentry-first k (i + 1) e (omega arith) (omega arith) has
            (λ j a b. before j (omega arith) b))
  ]

  search_dentry-missing :
      (k i : ℕ) → NoneHas i (i + k) → search_dentry k fs fname dentry i m0 ≡ some (minus_one, m0)
  unfolding search_dentry
  search_dentry-missing zero i missing = refl
  search_dentry-missing (suc k) i missing =
      rw (differs i (missing i (omega arith) (omega arith)), search_dentry)
        (search_dentry-missing k (i + 1) (λ j a b. missing j (omega arith) (omega arith)))

  -- For a name of at most 32 bytes, read_dentry_by_name succeeds with the first of the 63 entries that
  -- has the name: it copies its name, type and inode number to the caller's dentry_t, and writes
  -- nothing else. The entry's name ends within 35 bytes, and dentry overlaps no part of it.
  pub read_dentry_by_name-first :
      (len e n : ℕ)
      → IsString m0 fname len
      → len ≤ num_files_name
      → dentry ≢ 0
      → e < num_files
      → HasName m0 fs fname e
      → NoneHas 0 e
      → IsString m0 (file_name (dir_ent fs e)) n
      → n ≤ 35
      → Disjoint dentry dentry_size (dir_ent fs e) dentry_size
      → (m : Mem) × (read_dentry_by_name fs fname dentry m0 ≡ some (0, m))
        × Copied m0 fs e n dentry m
  unfolding read_dentry_by_name
  read_dentry_by_name-first len e n str short real in_dir has before entry le apart =
      let measured : strlen m0 fname ≡ some len =
        (strlen-IsString m0 fname len).1 (str, omega arith) in
      let (m, runs, copied) = copy_dentry-Copied m0 fs e n dentry entry le apart in
      (
        m,
        rw
            (
              measured,
              not-lt→ltb num_files_name len short,
              ne→== dentry 0 real,
              search_dentry-first num_files 0 e (omega arith) in_dir has before,
            )
            runs,
        copied,
      )

  -- A name of more than 32 bytes, a NULL dentry, or a name that none of the 63 entries has:
  -- read_dentry_by_name returns -1 and writes nothing.
  pub read_dentry_by_name-refused :
      (len : ℕ)
      → IsString m0 fname len
      → len < word
      → (num_files_name < len) ⊎ (dentry ≡ 0) ⊎ NoneHas 0 num_files
      → read_dentry_by_name fs fname dentry m0 ≡ some (minus_one, m0)
  unfolding read_dentry_by_name
  read_dentry_by_name-refused len str lt bad =
      let measured : strlen m0 fname ≡ some len = (strlen-IsString m0 fname len).1 (str, lt) in
      rw measured (elim bad [
        | inl long ↦ rw (lt→ltb num_files_name len long)
        | inr (inl null) ↦ ground arith
        | inr (inr missing) ↦ ground (arith, search_dentry-missing num_files 0 missing)
      ])
