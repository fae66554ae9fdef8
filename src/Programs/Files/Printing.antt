-- ===== src/Programs/Files/Printing.antt =====
-- What cat has done of an open file on this kernel after some rounds, and what one more adds.
use cheeri_os.Common.{
  ℕ, ◌+◌, ◌*◌, ◌^◌, ◌≤◌, ◌<◌, ◌≡◌, ◌≢◌, ◌⊎◌, ◌∙◌, inr, refl, ap, arith, leb, true, ◌==◌, ==_iff,
  some, Mem, load8, Written-inside, Written-load8,
}
use cheeri_os.Screen.{Screen, video, num_rows, num_cols}
use cheeri_os.Screen.Bounds.{InScreen, Keeps}
use cheeri_os.Screen.Shown.{Shown, stored}
use cheeri_os.FileSystem.Layout.{num_inodes, inode_length}
use cheeri_os.FileSystem.Data.Block.{Apart, ApartWord}
use cheeri_os.FileSystem.Data.Whole.{IsApart, file_byte}
use cheeri_os.FileSystem.Data.Unchanged.{SameBut, SameFile, SameBut-SameFile, SameFile-IsApart}
use cheeri_os.Kernel.State.{
  Kernel, memory, set_memory, descriptor, set_descriptor, file_table, FileDescriptor,
}
use cheeri_os.Kernel.Files.{file_read}
use cheeri_os.Kernel.Files.Read.{remaining, file_read-Written}
use cheeri_os.Kernel.Calls.Descriptors.{IsOpenTable, descriptor-set, set_descriptor-IsOpenTable}

abbrev pub video_size : ℕ
video_size = num_rows * num_cols * 2

module _ {D : Type 0} where
  -- Descriptor `fd` is an open file, and `buf` a buffer of 1024 bytes; the file, the buffer and the video memory
  -- do not overlap.
  pub record IsPrintable (k : Kernel D) (fd buf : ℕ) : Type 0 where
    pub table : IsOpenTable k
    pub valid : (2 ≤ fd) × (fd < 8)
    pub used : (descriptor k fd).flags ≡ 1
    pub type : (descriptor k fd).fjt_ptr ≡ file_table
    pub known : (descriptor k fd).inode < num_inodes (memory k) k.fs.boot_block
    pub short : inode_length (memory k) k.fs (descriptor k fd).inode ≤ 2 ^ 20
    pub from_buf : IsApart (memory k) k.fs (descriptor k fd).inode buf 1024
    pub from_video : IsApart (memory k) k.fs (descriptor k fd).inode video video_size
    pub boot :
        ApartWord buf 1024 (k.fs.boot_block + 4) × ApartWord video video_size (k.fs.boot_block + 4)
    pub apart : (buf + 1024 ≤ video) ⊎ (video + video_size ≤ buf)
    pub real : buf ≢ 0
    pub inside : InScreen k.keyboard.screen

  module _ (k0 : Kernel D) (fd buf : ℕ) where
    abbrev pub size : ℕ
    size = inode_length (memory k0) k0.fs (descriptor k0 fd).inode

    -- byte p of the file
    abbrev pub byte : ℕ → ℕ
    byte p = file_byte (memory k0) k0.fs (descriptor k0 fd).inode p

    -- `k` is `k0` after the first `pos` bytes of the file were shown: descriptor `fd` stands at `pos`, and outside of the
    -- buffer and the video memory the memory is as it was.
    pub record IsCopied (pos : ℕ) (k : Kernel D) : Type 0 where
      pub same : SameBut buf 1024 video video_size (memory k0) (memory k)
      pub fs : k.fs ≡ k0.fs
      pub table : IsOpenTable k
      pub file : descriptor k fd ≡ record (descriptor k0 fd) { file_pos = pos }
      pub inside : InScreen k.keyboard.screen
      pub shown : Shown byte k0.keyboard.screen pos k.keyboard.screen

    module _ (p : IsPrintable k0 fd buf) where
      same_file :
          {pos : ℕ} {k : Kernel D}
          → IsCopied pos k
          → SameFile (memory k0) (memory k) k0.fs (descriptor k0 fd).inode
      same_file c = SameBut-SameFile p.from_buf p.from_video c.same p.boot.0 p.boot.1

      pub file_read_on :
          (pos : ℕ) (k : Kernel D)
          → IsCopied pos k
          → pos < size
          → (n : ℕ) × (m : Mem) × (file_read fd buf 1024 k
              ≡ some (
                n,
                set_descriptor fd
                    (record (descriptor k0 fd) { file_pos = pos + n })
                    (set_memory m k),
              ))
            × (0 < n)
            × (n ≤ 1024)
            × (pos + n ≤ size)
            × ((j : ℕ) → j < n → load8 m (buf + j) ≡ byte (pos + j))
            × ((a : ℕ) → Apart buf 1024 a → load8 m a ≡ load8 (memory k) a)
      file_read_on pos k c more =
          let same = same_file c in
          let at : (descriptor k fd).file_pos ≡ pos =
            ap (λ (f : FileDescriptor). f.file_pos) c.file in
          let inode : (descriptor k fd).inode ≡ (descriptor k0 fd).inode =
            ap (λ (f : FileDescriptor). f.inode) c.file in
          let length : inode_length (memory k) k.fs (descriptor k fd).inode ≡ size =
            rw (c.fs, inode) same.length in
          let apart : IsApart (memory k) k.fs (descriptor k fd).inode buf 1024 =
            rw (c.fs, inode) (SameFile-IsApart p.from_buf p.from_video c.same same) in
          let known : (descriptor k fd).inode < num_inodes (memory k) k.fs.boot_block =
            rw (c.fs, inode) (omega (arith, same.count, p.known)) in
          let (m, runs, w, le) =
            file_read-Written fd 1024 buf k (omega arith) (omega (arith, at, length))
              (omega (arith, length, p.short)) apart known in
          let n = remaining fd 1024 k buf in
          (
            n,
            m,
            runs
                ∙ ap
                    (λ (f : FileDescriptor). some (
                      n,
                      set_descriptor fd (record f { file_pos = f.file_pos + n }) (set_memory m k),
                    ))
                    c.file,
            omega (arith, at, length),
            omega arith,
            omega (arith, at, length),
            λ j lt.
                Written-inside j w lt
                ∙ (rw (c.fs, inode, at) (same.bytes (pos + j) (omega (arith, at, length)))),
            λ a away. Written-load8 a w (omega arith),
          )

      pub at_end :
          (k : Kernel D)
          → IsCopied size k
          → leb (inode_length (memory k) k.fs (descriptor k fd).inode) (descriptor k fd).file_pos
            ≡ true
      at_end k c =
          let same = same_file c in
          let at : (descriptor k fd).file_pos ≡ size =
            ap (λ (f : FileDescriptor). f.file_pos) c.file in
          let inode : (descriptor k fd).inode ≡ (descriptor k0 fd).inode =
            ap (λ (f : FileDescriptor). f.inode) c.file in
          let length : inode_length (memory k) k.fs (descriptor k fd).inode ≡ size =
            rw (c.fs, inode) same.length in
          ground (arith, at, length)

      -- what the state is after a read that keeps everything but the buffer and the position
      pub stored_screen :
          (m : Mem) {pos : ℕ} {k : Kernel D}
          → IsCopied pos k
          → ((a : ℕ) → Apart buf 1024 a → load8 m a ≡ load8 (memory k) a)
          → Shown byte k0.keyboard.screen pos (record k.keyboard.screen { mem = m })
      stored_screen m {pos} {k} c away =
          stored m (record { at = λ a low high. away a (omega (arith, p.apart)) }) c.shown

      pub table_after :
          (pos : ℕ) (m : Mem) (k : Kernel D)
          → IsOpenTable k
          → IsOpenTable
              (set_descriptor fd (record (descriptor k0 fd) { file_pos = pos }) (set_memory m k))
      table_after pos m k table =
          set_descriptor-IsOpenTable fd (record (descriptor k0 fd) { file_pos = pos })
            (set_memory m k) table
            (record { flag = inr p.used; terminal = λ low. absurd (omega (arith, p.valid)) })

      pub IsCopied-next :
          (pos n : ℕ) (m : Mem) (t : Screen) (k : Kernel D)
          → IsCopied pos k
          → ((a : ℕ) → Apart buf 1024 a → load8 m a ≡ load8 (memory k) a)
          → Shown byte k0.keyboard.screen (pos + n) t
          → Keeps (record k.keyboard.screen { mem = m }) t
          → let k1 =
              set_descriptor fd
                (record (descriptor k0 fd) { file_pos = pos + n })
                (set_memory m k) in
            IsCopied (pos + n) (record k1 { keyboard = record k1.keyboard { screen = t } })
      IsCopied-next pos n m t k c away shown keeps = record {
        same = record {
          at = λ a out outside. keeps.same.at a outside ∙ away a out ∙ c.same.at a out outside;
        };
        fs = c.fs;
        table = table_after (pos + n) m k c.table;
        file =
            let same : (fd == fd) ≡ true = (==_iff fd fd).1 refl in
            descriptor-set fd (record (descriptor k0 fd) { file_pos = pos + n }) (set_memory m k) fd
            ∙ (rw same refl);
        inside = keeps.inside;
        shown = shown;
      }
