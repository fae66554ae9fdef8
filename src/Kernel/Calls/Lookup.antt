-- ===== src/Kernel/Calls/Lookup.antt =====
-- open of student-distrib/system_call.c from the file's name on.
use native.Mathlib.Decide.{ℕ_discrete}
use cheeri_os.Common.{
  ℕ, ◌≤◌, ◌<◌, ◌≡◌, ◌≢◌, ◌⊎◌, inl, inr, refl, arith, ne→==, ap, minus_one, some, word, Mem, load32,
}
use cheeri_os.Strings.{strlen}
use cheeri_os.Strings.Length.{IsString, strlen-IsString}
use cheeri_os.FileSystem.Layout.{
  dir_ent, file_name, file_type, inode_num, num_files, num_files_name, dentry_size,
}
use cheeri_os.FileSystem.Directory.ByName.{
  HasName, NoneHas, read_dentry_by_name-first, read_dentry_by_name-refused,
}
use cheeri_os.FileSystem.Directory.Entry.{Copied}
use cheeri_os.Strings.Copy.{Disjoint}
use cheeri_os.Kernel.State.{
  Kernel, Table, rtc_table, file_table, dir_table, FileDescriptor, memory, set_memory, descriptor,
  set_descriptor,
}
use cheeri_os.Kernel.Calls.{open_call, table_of}
use cheeri_os.Kernel.Calls.Descriptors.{IsLeastFree, AllUsed, opened, open_entry-least}

module _ {D : Type 0} where
  -- the type of the directory's entry `e`
  abbrev pub type_of : Kernel D → ℕ → ℕ
  type_of k e = load32 (memory k) (file_type (dir_ent k.fs e))

  -- What open puts into a descriptor whose table pointer was `old`, for the entry `e` of the directory: in
  -- use, at the start of the file, with the table of the entry's type, and for a file its inode.
  pub record IsOpened (k : Kernel D) (e : ℕ) (old : Table) (f : FileDescriptor) : Type 0 where
    pub flags : f.flags ≡ 1
    pub file_pos : f.file_pos ≡ 0
    pub clock : type_of k e ≡ 0 → f.fjt_ptr ≡ rtc_table
    pub directory : type_of k e ≡ 1 → f.fjt_ptr ≡ dir_table
    pub file :
        type_of k e ≡ 2
        → (f.fjt_ptr ≡ file_table) × (f.inode ≡ load32 (memory k) (inode_num (dir_ent k.fs e)))
    pub no_inode : type_of k e ≢ 2 → f.inode ≡ 0
    pub other : 2 < type_of k e → f.fjt_ptr ≡ old

  opened-IsOpened :
      (k : Kernel D) (e n dentry fd : ℕ) {m : Mem}
      → Copied (memory k) k.fs e n dentry m
      → IsOpened k e (descriptor k fd).fjt_ptr (opened dentry fd (set_memory m k))
  unfolding table_of
  opened-IsOpened k e n dentry fd {m} c =
      let same : load32 m (file_type dentry) ≡ type_of k e = c.type in
      rw same (record {
        flags = refl;
        file_pos = refl;
        clock = λ z. rw z refl;
        directory = λ z. rw z refl;
        file = λ z. rw z (refl, c.inode);
        no_inode = λ z. rw (ne→== _ 2 z) refl;
        other = λ z. ground (arith, z);
      })

  -- For a name of 1 to 32 bytes, open copies the first of the 63 directory entries that has the name to its
  -- dentry_t. Then it returns the free descriptor of least number among 2 to 7, which is in use now, at the
  -- start of the file, with the function table of the entry's type (clock, directory or file), and with the
  -- entry's inode number if the entry is a file; or, when all six are in use, it returns -1. Nothing else changes.
  pub open_call-first :
      (k : Kernel D) (filename dentry len e n : ℕ)
      → IsString (memory k) filename len
      → 0 < len
      → len ≤ num_files_name
      → dentry ≢ 0
      → e < num_files
      → HasName (memory k) k.fs filename e
      → NoneHas (memory k) k.fs filename dentry 0 e
      → IsString (memory k) (file_name (dir_ent k.fs e)) n
      → n ≤ 35
      → Disjoint dentry dentry_size (dir_ent k.fs e) dentry_size
      → (m : Mem) × Copied (memory k) k.fs e n dentry m
        × (((fd : ℕ) × (f : FileDescriptor) × IsLeastFree k fd
              × IsOpened k e (descriptor k fd).fjt_ptr f
              × (open_call dentry filename k ≡ some (fd, set_descriptor fd f (set_memory m k))))
            ⊎ (AllUsed k × (open_call dentry filename k ≡ some (minus_one, set_memory m k))))
  unfolding open_call
  open_call-first k filename dentry len e n str some_byte short real in_dir has before entry le
        apart =
      let measured : strlen (memory k) filename ≡ some len =
        (strlen-IsString (memory k) filename len).1 (str, omega arith) in
      let (m, runs, copied) =
        read_dentry_by_name-first (memory k) k.fs filename dentry len e n str short real in_dir has
          before entry le apart in
      let nonempty = ne→== len 0 (λ z. absurd (omega arith)) in
      (
        m,
        copied,
        elim (open_entry-least dentry (set_memory m k)) [
          | inl (fd, least, found) ↦ inl (
            fd,
            opened dentry fd (set_memory m k),
            least,
            opened-IsOpened k e n dentry fd copied,
            rw (measured, nonempty, runs) (ap some found),
          )
          | inr (used, found) ↦ inr (used, rw (measured, nonempty, runs) (ap some found))
        ],
      )

  -- For the empty name, a name of more than 32 bytes and a name that none of the 63 entries has, open returns -1
  -- and changes nothing.
  pub open_call-refused :
      (k : Kernel D) (filename dentry len : ℕ)
      → IsString (memory k) filename len
      → len < word
      → (len ≡ 0) ⊎ (num_files_name < len) ⊎ NoneHas (memory k) k.fs filename dentry 0 num_files
      → open_call dentry filename k ≡ some (minus_one, k)
  unfolding open_call
  open_call-refused k filename dentry len str lt why =
      let measured : strlen (memory k) filename ≡ some len =
        (strlen-IsString (memory k) filename len).1 (str, lt) in
      elim (ℕ_discrete len 0) [
        | yes z ↦ rw (measured, z) refl
        | no ne ↦ elim why [
          | inl z ↦ absurd (ne z)
          | inr (inl long) ↦
              rw
                (
                  measured,
                  ne→== len 0 ne,
                  read_dentry_by_name-refused (memory k) k.fs filename dentry len str lt (inl long),
                )
                refl
          | inr (inr missing) ↦
              rw
                (
                  measured,
                  ne→== len 0 ne,
                  read_dentry_by_name-refused (memory k) k.fs filename dentry len str lt
                      (inr (inr missing)),
                )
                refl
        ]
      ]
