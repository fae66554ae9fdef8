-- ===== src/Kernel/Sample/Program.antt =====
-- The sample's kernel with a file of forty bytes, long enough for a program's header.
use cheeri_os.Common.{
  ℕ, ◌/◌, ◌<◌, ◌≤◌, ◌≡◌, ◌∙◌, inl, inr, refl, ap, arith, ◌==◌, if◌then◌else◌, Mem, load32,
}
use cheeri_os.FileSystem.Layout.{num_inodes, inode_length, block_addr, block_size}
use cheeri_os.FileSystem.Data.Whole.{IsApart}
use cheeri_os.Kernel.State.{Kernel, set_memory}
use cheeri_os.Kernel.Process.Loaded.{IsLoadable}
use cheeri_os.Kernel.Sample.{bytes, disk, shell_only, frame}

abbrev pub program : Mem
program a = if a == 8192 then 40 else bytes a

abbrev pub ready : Kernel ℕ
ready = set_memory program shell_only

known : 0 < num_inodes program disk.boot_block
unfolding num_inodes load32
known = omega arith

length_forty : inode_length program disk 0 ≡ 40
unfolding inode_length load32
length_forty = refl

block_zero : block_addr program disk 0 0 ≡ 12288
unfolding block_addr load32
block_zero = refl

program-IsApart : (buf n : ℕ) → 20000 ≤ buf → IsApart program disk 0 buf n
program-IsApart buf n above = record {
  from_length = omega arith;
  from_numbers = λ k lt. omega (arith, length_forty);
  from_bytes = λ p lt.
      let zeroth : p / block_size ≡ 0 = omega (arith, length_forty) in
      let first : block_addr program disk 0 (p / block_size) ≡ 12288 =
        ap (block_addr program disk 0) zeroth ∙ block_zero in
      omega (arith, first, length_forty);
}

pub ready-IsLoadable : IsLoadable frame 0 0 ready
ready-IsLoadable = record {
  processes = omega arith;
  programs = omega arith;
  shown = refl;
  known = known;
  header = omega (arith, length_forty);
  short = omega (arith, length_forty);
  from_page = program-IsApart _ _ (omega arith);
  from_entry = program-IsApart _ _ (omega arith);
  count_from_page = inl (omega arith);
  count_from_entry = inl (omega arith);
  entry_low = omega arith;
  args = record { nonzero = λ i lt. absurd (omega arith); ends = refl };
  args_short = omega arith;
  args_low = omega arith;
  args_from_entry = inl (omega arith);
  args_from_copy = inr (omega arith);
}
