-- ===== src/FileSystem/Directory/Entry.antt =====
-- What copying a directory entry leaves in the caller's dentry_t.
use native.Mathlib.Decide.{dec_lt}
use cheeri_os.Common.{
  ℕ, ◌+◌, ◌-◌, ◌≤◌, ◌<◌, ◌≡◌, ◌⊎◌, ◌∙◌, some, arith, Mem, load8, load32, store32, Written-load8,
  Written-load32, load32-store32, load8-store32_ne, load32-store32_ne, Written-inside,
  load8_of_load32, load32-lt,
}
use cheeri_os.Strings.Length.{IsString}
use cheeri_os.Strings.Copy.{Disjoint, strcpy-Written}
use cheeri_os.FileSystem.Layout.{Fs, dir_ent, file_name, file_type, inode_num, dentry_size}
use cheeri_os.FileSystem.Directory.{copy_dentry}

-- `m` has in the dentry_t at `dentry` the name up to its n-th byte (at most 32 bytes), the type and the
-- inode number that `m0` has in entry `i`, and is `m0` outside the 40 bytes that these take.
pub record Copied (m0 : Mem) (fs : Fs) (i n dentry : ℕ) (m : Mem) : Type 0 where
  pub name :
      (j : ℕ)
      → j < 32
      → j ≤ n
      → load8 m (file_name dentry + j) ≡ load8 m0 (file_name (dir_ent fs i) + j)
  pub type : load32 m (file_type dentry) ≡ load32 m0 (file_type (dir_ent fs i))
  pub inode : load32 m (inode_num dentry) ≡ load32 m0 (inode_num (dir_ent fs i))
  pub same : (a : ℕ) → (a < dentry) ⊎ (dentry + 40 ≤ a) → load8 m a ≡ load8 m0 a

module _ (m0 : Mem) (fs : Fs) (i n dentry : ℕ) where
  -- Entry `i` has a name of n bytes before the first NUL. A name of 32 bytes has no NUL of its own: strcpy
  -- goes on into the type, so that n is up to 35 where the type is below 2 ^ 24.
  pub copy_dentry-Copied :
      IsString m0 (file_name (dir_ent fs i)) n
      → n ≤ 35
      → Disjoint dentry dentry_size (dir_ent fs i) dentry_size
      → (m : Mem) × (copy_dentry fs i dentry m0 ≡ some (0, m)) × Copied m0 fs i n dentry m
  unfolding copy_dentry
  copy_dentry-Copied str le apart =
      let (m1, runs, w) =
        strcpy-Written m0 (file_name dentry) (file_name (dir_ent fs i)) n str (omega arith)
          (omega arith) in
      let t = load32 m1 (file_type (dir_ent fs i)) in
      let m2 = store32 m1 (file_type dentry) t in
      let k = load32 m2 (inode_num (dir_ent fs i)) in
      let m3 = store32 m2 (inode_num dentry) k in
      let t_same : t ≡ load32 m0 (file_type (dir_ent fs i)) = Written-load32 _ w (omega arith) in
      let k_same : k ≡ load32 m0 (inode_num (dir_ent fs i)) =
        load32-store32_ne m1 (file_type dentry) t (inode_num (dir_ent fs i)) (omega arith)
        ∙ Written-load32 _ w (omega arith) in
      (
        m3,
        rw runs,
        record {
          name = λ j lt le'.
              load8-store32_ne m2 (inode_num dentry) k (file_name dentry + j) (omega arith)
              ∙ load8-store32_ne m1 (file_type dentry) t (file_name dentry + j) (omega arith)
              ∙ Written-inside j w (omega arith);
          type =
              load32-store32_ne m2 (inode_num dentry) k (file_type dentry) (omega arith)
              ∙ load32-store32 m1 (file_type dentry) t (load32-lt m1 (file_type (dir_ent fs i)))
              ∙ t_same;
          inode =
              load32-store32 m2 (inode_num dentry) k (load32-lt m2 (inode_num (dir_ent fs i)))
              ∙ k_same;
          same = λ a away.
              load8-store32_ne m2 (inode_num dentry) k a (omega arith)
              ∙ load8-store32_ne m1 (file_type dentry) t a (omega arith)
              ∙ Written-load8 a w (omega arith);
        },
      )

  -- The copy is a string of the same length.
  pub Copied-IsString :
      {m : Mem}
      → IsString m0 (file_name (dir_ent fs i)) n
      → n ≤ 35
      → Copied m0 fs i n dentry m
      → IsString m (file_name dentry) n
  Copied-IsString {m} str le c = record {
    nonzero = λ j lt. rw (byte j (omega arith)) (str.nonzero j lt);
    ends = rw (byte n (omega arith)) str.ends;
  }
    where
      byte : (j : ℕ) → j ≤ n → load8 m (dentry + j) ≡ load8 m0 (dir_ent fs i + j)
      byte j le' = elim (dec_lt j 32) [
        | yes lt ↦ c.name j lt le'
        | no ge ↦
            let e : dentry + j ≡ file_type dentry + (j - 32) = omega arith in
            let e' : dir_ent fs i + j ≡ file_type (dir_ent fs i) + (j - 32) = omega arith in
            rw (e, e')
              (load8_of_load32 m m0 (file_type dentry) (file_type (dir_ent fs i)) (j - 32) c.type
                (omega arith))
      ]
