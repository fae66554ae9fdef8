-- ===== src/FileSystem/Directory/List.antt =====
-- dir_read lists the directory: one name a call, then 0 and again from the first.
use cheeri_os.Common.{
  ℕ, zero, suc, ◌+◌, ◌≤◌, ◌<◌, ◌≡◌, ◌≢◌, ◌⊎◌, ◌∙◌, some, ap, min, arith, ne→==, Mem, load8, not,
  slt, not-le→leb, le→leb, lt→ltb, if◌then◌else◌, Written, Written-zero, Written-load8,
  Written-store8, add32, Written-inside,
}
use cheeri_os.Strings.{strlen}
use cheeri_os.Strings.Length.{IsString, strlen-IsString}
use cheeri_os.Strings.Copy.{Disjoint}
use cheeri_os.FileSystem.Layout.{Fs, dir_ent, file_name, num_dentries, num_files_name, dentry_size}
use cheeri_os.FileSystem.Directory.{copy_name, dir_read, read_dentry_by_index}
use cheeri_os.FileSystem.Directory.Entry.{copy_dentry-Copied, Copied-IsString}

module _ (m0 : Mem) (buf dentry n : ℕ) (apart : Disjoint buf n dentry n) where
  copy_name-Written :
      (k i : ℕ) {m : Mem}
      → i + k ≡ n
      → Written m0 buf i (λ j. load8 m0 (file_name dentry + j)) m
      → Written m0 buf n (λ j. load8 m0 (file_name dentry + j)) (copy_name k buf dentry i m)
  unfolding copy_name
  copy_name-Written zero i e w = let e' : i ≡ n = omega arith in rw (← e') w
  copy_name-Written (suc k) i {m} e w =
      let same : load8 m (file_name dentry + i) ≡ load8 m0 (file_name dentry + i) =
        Written-load8 (file_name dentry + i) w (omega arith) in
      copy_name-Written k (i + 1) (omega arith)
        (Written-store8 (load8 m (file_name dentry + i)) w (omega (arith, same)))

module _ (m0 : Mem) (fs : Fs) (dentry buf nbytes : ℕ) where
  -- Past the last entry, dir_read returns 0, writes nothing and starts again from the first entry.
  pub dir_read-end :
      num_dentries m0 fs ≤ fs.dir_count
      → dir_read fs dentry buf nbytes m0 ≡ some (0, record fs { dir_count = 0 }, m0)
  unfolding dir_read
  dir_read-end past = rw (le→leb (num_dentries m0 fs) fs.dir_count past)

  -- While there are entries left, dir_read goes on to the next one and returns the length of the name of
  -- this one, 32 at most; the buffer then holds that many bytes of it, with no NUL after them, and
  -- beyond the buffer and the dentry_t on the stack no byte has changed.
  pub dir_read-name :
      (n : ℕ)
      → fs.dir_count < num_dentries m0 fs
      → dentry ≢ 0
      → IsString m0 (file_name (dir_ent fs fs.dir_count)) n
      → n ≤ 35
      → Disjoint dentry dentry_size (dir_ent fs fs.dir_count) dentry_size
      → Disjoint buf num_files_name dentry num_files_name
      → (m : Mem) × (dir_read fs dentry buf nbytes m0
          ≡ some (min n num_files_name, record fs { dir_count = add32 fs.dir_count 1 }, m))
        × ((j : ℕ)
            → j < min n num_files_name
            → load8 m (buf + j) ≡ load8 m0 (file_name (dir_ent fs fs.dir_count) + j))
        × ((a : ℕ)
            → (a < buf) ⊎ (buf + min n num_files_name ≤ a)
            → (a < dentry) ⊎ (dentry + 40 ≤ a)
            → load8 m a ≡ load8 m0 a)
  unfolding dir_read read_dentry_by_index
  dir_read-name n more real str le apart apart' =
      let d = fs.dir_count in
      let k = min n num_files_name in
      let (m1, runs, copied) = copy_dentry-Copied m0 fs d n dentry str le apart in
      let measured : strlen m1 (file_name dentry) ≡ some n =
        (strlen-IsString m1 (file_name dentry) n).1
          (Copied-IsString m0 fs d n dentry str le copied, omega arith) in
      let w =
        copy_name-Written m1 buf dentry k (omega arith) k 0 (omega arith) (Written-zero m1 buf _) in
      let capped : (if not (slt n num_files_name) then num_files_name else n) ≡ k = ground arith in
      (
        copy_name k buf dentry 0 m1,
        rw
            (
              not-le→leb (num_dentries m0 fs) d more,
              ne→== dentry 0 real,
              lt→ltb d (num_dentries m0 fs) more,
              runs,
              measured,
            )
            (ap (λ c. some (c, record fs { dir_count = add32 d 1 }, copy_name c buf dentry 0 m1))
              capped),
        λ j lt. Written-inside j w lt ∙ copied.name j (omega arith) (omega arith),
        λ a out out'. Written-load8 a w out ∙ copied.same a out',
      )
