-- ===== src/FileSystem/Directory.antt =====
-- read_dentry_by_name, read_dentry_by_index and dir_read of student-distrib/file_system.c. `dentry` is
-- the address of the caller's dentry_t; `none` is a name that never ends.
pub mod Entry
pub mod ByName
pub mod List
use cheeri_os.Common.{
  ℕ, zero, suc, ◌+◌, Bool, true, false, Option, none, some, ◌>>=◌, ◌==◌, ltb, leb, not, slt,
  if◌then◌else◌, Mem, load8, load32, store8, store32, minus_one, add32,
}
use cheeri_os.Strings.{strlen, strncmp, strcpy}
use cheeri_os.FileSystem.Layout.{
  Fs, num_files_name, num_files, num_dentries, dir_ent, file_name, file_type, inode_num,
}

-- the body that both functions share: copy entry `i` to `dentry`
pub copy_dentry : Fs → ℕ → ℕ → Mem → Option (ℕ × Mem)
copy_dentry fs i dentry m = do
  m1 ← strcpy m (file_name dentry) (file_name (dir_ent fs i))
  let m2 = store32 m1 (file_type dentry) (load32 m1 (file_type (dir_ent fs i)))
  some (0, store32 m2 (inode_num dentry) (load32 m2 (inode_num (dir_ent fs i))))

-- `for (i = 0; i < NUM_FILES; i++)` with `k` rounds left
pub search_dentry : ℕ → Fs → (fname dentry i : ℕ) → Mem → Option (ℕ × Mem)
search_dentry zero fs fname dentry i m = some (minus_one, m)
search_dentry (suc k) fs fname dentry i m =
    elim (strncmp m (file_name (dir_ent fs i)) fname num_files_name == 0) [
      | true ↦ copy_dentry fs i dentry m
      | false ↦ search_dentry k fs fname dentry (i + 1) m
    ]

pub read_dentry_by_name : Fs → (fname dentry : ℕ) → Mem → Option (ℕ × Mem)
read_dentry_by_name fs fname dentry m = do
  n ← strlen m fname
  if ltb num_files_name n
      then some (minus_one, m)
      else if dentry == 0
      then some (minus_one, m)
      else search_dentry num_files fs fname dentry 0 m

pub read_dentry_by_index : Fs → (index dentry : ℕ) → Mem → Option (ℕ × Mem)
read_dentry_by_index fs index dentry m =
    if dentry == 0
    then some (minus_one, m)
    else if ltb index (num_dentries m fs)
    then copy_dentry fs index dentry m
    else some (minus_one, m)

-- `for (i = 0; i < word_length; i++) buf[i] = dentry.file_name[i]` with `k` rounds left
copy_name : ℕ → (buf dentry i : ℕ) → Mem → Mem
copy_name zero buf dentry i m = m
copy_name (suc k) buf dentry i m =
    copy_name k buf dentry (i + 1) (store8 m (buf + i) (load8 m (file_name dentry + i)))

-- `dentry` is where the local dentry_t stands on the stack. The result is also the new dir_count.
pub dir_read : Fs → (dentry buf nbytes : ℕ) → Mem → Option (ℕ × Fs × Mem)
unfolding copy_name
dir_read fs dentry buf nbytes m =
    if leb (num_dentries m fs) fs.dir_count then some (0, record fs { dir_count = 0 }, m) else do
      (result, m1) ← read_dentry_by_index fs fs.dir_count dentry m
      if result == minus_one then some (0, fs, m1) else do
        n ← strlen m1 (file_name dentry)
        let word_length = if not (slt n num_files_name) then num_files_name else n
        let fs' = record fs { dir_count = add32 fs.dir_count 1 }
        some (word_length, fs', copy_name word_length buf dentry 0 m1)

abbrev pub dir_close : ℕ → ℕ
dir_close fd = 0

abbrev pub dir_write : (fd buf nbytes : ℕ) → ℕ
dir_write fd buf nbytes = minus_one

-- file_open and dir_open pass a pointer that was never set: its value is an argument.
pub file_open : Fs → (dentry filename : ℕ) → Mem → Option (ℕ × Mem)
file_open fs dentry filename = read_dentry_by_name fs filename dentry

pub dir_open : Fs → (dentry filename : ℕ) → Mem → Option (ℕ × Mem)
dir_open fs dentry filename = read_dentry_by_name fs filename dentry
