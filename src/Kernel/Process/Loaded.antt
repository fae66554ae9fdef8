-- ===== src/Kernel/Process/Loaded.antt =====
-- launch of student-distrib/system_call.c from the file and the arguments: what it leaves in the memory, and where
-- the program starts.
use cheeri_os.Common.{
  ℕ, ◌+◌, ◌*◌, ◌^◌, ◌≤◌, ◌<◌, ◌≡◌, ◌∙◌, refl, sym, ap, arith, min, some, true, Mem, load8, load32,
  Written, Written-inside, Written-load8,
}
use cheeri_os.Strings.Length.{IsString}
use cheeri_os.Strings.Copy.{Disjoint, strcpy-Written}
use cheeri_os.FileSystem.Layout.{num_inodes, inode_length}
use cheeri_os.FileSystem.Data.{read_data}
use cheeri_os.FileSystem.Data.Block.{Apart, ApartWord}
use cheeri_os.FileSystem.Data.Whole.{IsApart, file_byte, total, bytes_from, read_data-Written}
use cheeri_os.FileSystem.Data.Unchanged.{SameBut, SameFile, SameBut-SameFile, SameFile-IsApart}
use cheeri_os.Keyboard.Handler.{is_terminal}
use cheeri_os.Kernel.State.{Kernel, memory, process_args}
use cheeri_os.Kernel.Process.{Frame, launched, terminal, launch, program_length}
use cheeri_os.Kernel.Process.Launch.{Started, image, launch-Started}

zero_add : (j : ℕ) → 0 + j ≡ j
zero_add j = omega arith

load32-bytes :
    (m : Mem) (a : ℕ) (g : ℕ → ℕ)
    → ((j : ℕ) → j < 4 → load8 m (a + j) ≡ g (24 + j))
    → load32 m a ≡ g 24 + 2 ^ 8 * g 25 + 2 ^ 16 * g 26 + 2 ^ 24 * g 27
unfolding load32
load32-bytes m a g bytes =
    let here : a + 0 ≡ a = omega arith in
    rw
      (
        sym (ap (load8 m) here) ∙ bytes 0 (omega arith),
        bytes 1 (omega arith),
        bytes 2 (omega arith),
        bytes 3 (omega arith),
      )
      refl

module _ {D : Type 0} where
  -- There is room for one more process and program of the terminal; the file is one of the file system, has its
  -- header and at most 256 blocks, and overlaps neither the page of the process nor the array of the entry
  -- point; and the arguments are a string of at most 128 bytes below the pages, apart from that array and
  -- from the PCB's copy.
  pub record IsLoadable (f : Frame) (inode n : ℕ) (k : Kernel D) : Type 0 where
    pub processes : k.process_num < 6
    pub programs : k.programs (terminal k) < 6
    pub shown : is_terminal (terminal k) ≡ true
    pub known : inode < num_inodes (memory k) k.fs.boot_block
    pub header : 28 ≤ inode_length (memory k) k.fs inode
    pub short : inode_length (memory k) k.fs inode ≤ 2 ^ 20
    pub from_page : IsApart (memory k) k.fs inode (image k) program_length
    pub from_entry : IsApart (memory k) k.fs inode f.entry_point_arr 4
    pub count_from_page : ApartWord (image k) program_length (k.fs.boot_block + 4)
    pub count_from_entry : ApartWord f.entry_point_arr 4 (k.fs.boot_block + 4)
    pub entry_low : f.entry_point_arr + 4 ≤ 0x800000
    pub args : IsString (memory k) f.args n
    pub args_short : n ≤ 128
    pub args_low : f.args + n < 0x800000
    pub args_from_entry : Disjoint f.args (n + 1) f.entry_point_arr 4
    pub args_from_copy : Disjoint (process_args (k.process_num + 1)) (n + 1) f.args (n + 1)

  -- how many bytes of the file are loaded
  abbrev pub loaded : ℕ → Kernel D → ℕ
  loaded inode k = min program_length (inode_length (memory k) k.fs inode)

  -- the number in the bytes 24 to 27 of the file, the lowest first
  abbrev pub entry_point : ℕ → Kernel D → ℕ
  entry_point inode k =
      let byte = file_byte (memory k) k.fs inode in
      byte 24 + 2 ^ 8 * byte 25 + 2 ^ 16 * byte 26 + 2 ^ 24 * byte 27

  -- What is in the memory: the file at 0x48000 of the process's page, the arguments in its PCB, and, but for the
  -- array of the entry point, what there was.
  pub record IsLoaded (f : Frame) (inode n : ℕ) (k : Kernel D) (m : Mem) : Type 0 where
    pub page :
        (j : ℕ) → j < loaded inode k → load8 m (image k + j) ≡ file_byte (memory k) k.fs inode j
    pub args :
        (j : ℕ)
        → j ≤ n
        → load8 m (process_args (k.process_num + 1) + j) ≡ load8 (memory k) (f.args + j)
    pub same :
        (a : ℕ)
        → Apart (image k) (loaded inode k) a
        → Apart (process_args (k.process_num + 1)) (n + 1) a
        → Apart f.entry_point_arr 4 a
        → load8 m a ≡ load8 (memory k) a

  module _ (f : Frame) (inode n : ℕ) (k : Kernel D) (v : IsLoadable f inode n k) where
    -- how many bytes of the file are read, as read_data counts them
    abbrev count : ℕ
    count = total (memory k) k.fs inode 0 (image k) program_length

    -- what the first read leaves
    abbrev Paged : Mem → Type 0
    Paged m1 =
        Written (memory k) (image k) count
          (bytes_from (memory k) k.fs inode 0 (image k) program_length) m1

    page_read :
        (m1 : Mem) × (read_data k.fs inode 0 (image k) program_length (memory k) ≡ some (count, m1))
        × Paged m1
    page_read =
        read_data-Written (memory k) k.fs inode 0 (image k) program_length (omega arith)
          (omega (arith, v.header)) v.short v.from_page v.known

    page_SameBut :
        {m1 : Mem} → Paged m1 → SameBut f.entry_point_arr 4 (image k) program_length (memory k) m1
    page_SameBut w = record { at = λ a out away. Written-load8 a w (omega arith) }

    page_SameFile : {m1 : Mem} → Paged m1 → SameFile (memory k) m1 k.fs inode
    page_SameFile w =
        SameBut-SameFile v.from_entry v.from_page (page_SameBut w) v.count_from_entry
          v.count_from_page

    -- the second one, of the entry point
    entry_read :
        (m1 : Mem)
        → Paged m1
        → (n' : ℕ) × (m2 : Mem) × (g : ℕ → ℕ) × (read_data k.fs inode 24 f.entry_point_arr 4 m1
            ≡ some (n', m2))
          × Written m1 f.entry_point_arr n' g m2
          × (n' ≤ 4)
          × (load32 m2 f.entry_point_arr ≡ entry_point inode k)
    entry_read m1 w =
        let file = page_SameFile w in
        let (m2, runs, w2) =
          read_data-Written m1 k.fs inode 24 f.entry_point_arr 4 (omega arith)
            (omega (arith, file.length, v.header)) (omega (arith, file.length, v.short))
            (SameFile-IsApart v.from_entry v.from_page (page_SameBut w) file)
            (omega (arith, file.count, v.known)) in
        let byte : (j : ℕ)
            → j < 4
            → load8 m2 (f.entry_point_arr + j) ≡ file_byte (memory k) k.fs inode (24 + j) =
          λ j lt.
            Written-inside j w2 (omega (arith, file.length, v.header))
            ∙ file.bytes (24 + j) (omega (arith, v.header)) in
        (
          total m1 k.fs inode 24 f.entry_point_arr 4,
          m2,
          bytes_from m1 k.fs inode 24 f.entry_point_arr 4,
          runs,
          w2,
          omega arith,
          load32-bytes m2 f.entry_point_arr (file_byte (memory k) k.fs inode) byte,
        )

    -- The arguments in the memory that the two reads leave.
    args_kept :
        {m1 m2 : Mem} {n' : ℕ} {g : ℕ → ℕ}
        → Paged m1
        → Written m1 f.entry_point_arr n' g m2
        → n' ≤ 4
        → (j : ℕ) → j ≤ n
        → load8 m2 (f.args + j) ≡ load8 (memory k) (f.args + j)
    args_kept w w2 le j lt =
        Written-load8 (f.args + j) w2 (omega (arith, v.args_from_entry))
        ∙ Written-load8 (f.args + j) w (omega (arith, v.args_low))

  -- With fewer than six processes and programs of the terminal, for a file with a header of 28 bytes and at
  -- most 256 blocks that overlaps neither the process's page nor the array of the entry point, and arguments
  -- of at most 128 bytes apart from these and from the PCB's copy: launch goes to the program, at the number
  -- in the bytes 24 to 27 of the file, and the new process is started as `Started` says (slot, number, parent,
  -- descriptors, page, stack pointers). The first 4 MB - 0x48000 bytes of the file, or as many as it has,
  -- stand at 0x48000 of its page, the arguments in its PCB, and no other byte of the memory but the four of
  -- the array of the entry point has changed.
  pub launch-Loaded :
      (f : Frame) (inode n : ℕ) (k : Kernel D)
      → IsLoadable f inode n k
      → (k' : Kernel D) × (launch f inode k ≡ some (launched (entry_point inode k), k'))
        × Started f k k'
        × IsLoaded f inode n k (memory k')
  launch-Loaded f inode n k v =
      let (m1, body, w1) = page_read f inode n k v in
      let (n', m2, g, entry, w2, four, goes) = entry_read f inode n k v m1 w1 in
      let kept = args_kept f inode n k v w1 w2 four in
      let copy = process_args (k.process_num + 1) in
      let str : IsString m2 f.args n = record {
        nonzero = λ j lt z. v.args.nonzero j lt (sym (kept j (omega arith)) ∙ z);
        ends = kept n (omega arith) ∙ v.args.ends;
      } in
      let (m3, args, w3) =
        strcpy-Written m2 copy f.args n str (omega (arith, v.args_short)) v.args_from_copy in
      let (k', runs, started, mem) =
        launch-Started f inode _ n' m1 m2 m3 k v.processes v.programs v.shown body entry args in
      (
        k',
        rw goes at runs,
        started,
        rw mem (record {
          page = λ j lt.
              Written-load8 (image k + j) w3 (omega (arith, v.args_short))
              ∙ Written-load8 (image k + j) w2 (omega (arith, v.entry_low))
              ∙ Written-inside j w1 (omega arith)
              ∙ ap (file_byte (memory k) k.fs inode) (zero_add j);
          args = λ j le. Written-inside j w3 (omega arith) ∙ kept j le;
          same = λ a page_away copy_away array_away.
              Written-load8 a w3 copy_away
              ∙ Written-load8 a w2 (omega arith)
              ∙ Written-load8 a w1 (omega arith);
        }),
      )
