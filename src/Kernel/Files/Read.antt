-- ===== src/Kernel/Files/Read.antt =====
-- file_read of student-distrib/file_system.c: reading on from where the descriptor stands.
use cheeri_os.Common.{
  ℕ, ◌+◌, ◌^◌, ◌≤◌, ◌<◌, ◌≡◌, refl, arith, false, some, leb, add32, Mem, Written, word,
}
use cheeri_os.FileSystem.Layout.{inode_length, num_inodes}
use cheeri_os.FileSystem.Data.Whole.{IsApart, total, bytes_from, read_data-Written}
use cheeri_os.Kernel.State.{Kernel, memory, set_memory, descriptor, set_descriptor}
use cheeri_os.Kernel.Files.{file_read}

module _ {D : Type 0} (fd nbytes : ℕ) where
  -- how many bytes a descriptor still has for a read of `nbytes`
  abbrev pub remaining : Kernel D → ℕ → ℕ
  remaining k buf =
      total (memory k) k.fs (descriptor k fd).inode (descriptor k fd).file_pos buf nbytes

  -- For a descriptor inside a file of at most 256 blocks and a buffer that overlaps neither the file nor its
  -- inode, file_read ends and returns min(nbytes, what is left of the file), with those bytes of the
  -- file, from the descriptor's position on, in the buffer and no other byte changed. The position
  -- has moved by that number and is not past the end of the file, and nothing
  -- else has changed.
  pub file_read-Written :
      (buf : ℕ) (k : Kernel D)
      → nbytes < word
      → (descriptor k fd).file_pos < inode_length (memory k) k.fs (descriptor k fd).inode
      → inode_length (memory k) k.fs (descriptor k fd).inode ≤ 2 ^ 20
      → IsApart (memory k) k.fs (descriptor k fd).inode buf nbytes
      → (descriptor k fd).inode < num_inodes (memory k) k.fs.boot_block
      → let f = descriptor k fd in
        let n = remaining k buf in
        (m : Mem) × (file_read fd buf nbytes k
          ≡ some (n, set_descriptor fd (record f { file_pos = f.file_pos + n }) (set_memory m k)))
        × Written (memory k) buf n (bytes_from (memory k) k.fs f.inode f.file_pos buf nbytes) m
        × (f.file_pos + n ≤ inode_length (memory k) k.fs f.inode)
  unfolding file_read
  file_read-Written buf k small inside short apart known =
      let f = descriptor k fd in
      let (m, runs, w) =
        read_data-Written (memory k) k.fs f.inode f.file_pos buf nbytes small inside short apart
          known in
      let on : leb (inode_length (memory k) k.fs f.inode) f.file_pos ≡ false = ground arith in
      let moved : add32 f.file_pos (remaining k buf) ≡ f.file_pos + remaining k buf = omega arith in
      (m, rw (on, runs, moved) refl, w, omega arith)
