-- ===== src/Kernel/Sample/Facts.antt =====
-- The sample's file and its descriptors.
use cheeri_os.Common.{ℕ, ◌≤◌, ◌<◌, ◌≡◌, ◌∙◌, ◌/◌, refl, ap, arith, load32}
use cheeri_os.FileSystem.Layout.{num_inodes, inode_length, block_addr, block_size}
use cheeri_os.FileSystem.Data.Whole.{IsApart}
use cheeri_os.Kernel.Calls.Descriptors.{IsOpenTable}
use cheeri_os.Kernel.Sample.{bytes, disk, both}

pub both-IsOpenTable : IsOpenTable both
both-IsOpenTable fd lt = record { flag = ground arith; terminal = λ le. ground arith }

pub known : 0 < num_inodes bytes disk.boot_block
unfolding num_inodes load32
known = omega arith

pub length_three : inode_length bytes disk 0 ≡ 3
unfolding inode_length load32
length_three = refl

block_zero : block_addr bytes disk 0 0 ≡ 12288
unfolding block_addr load32
block_zero = refl

-- Memory above the disk overlaps no file.
pub disk-IsApart : (buf n : ℕ) → 20000 ≤ buf → IsApart bytes disk 0 buf n
disk-IsApart buf n above = record {
  from_length = omega arith;
  from_numbers = λ k lt. omega (arith, length_three);
  from_bytes = λ p lt.
      let zeroth : p / block_size ≡ 0 = omega (arith, length_three) in
      let first : block_addr bytes disk 0 (p / block_size) ≡ 12288 =
        ap (block_addr bytes disk 0) zeroth ∙ block_zero in
      omega (arith, first, length_three);
}
