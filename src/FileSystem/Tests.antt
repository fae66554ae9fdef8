-- ===== src/FileSystem/Tests.antt =====
-- The theorems on the file system, at an image of one file and at one whose file has 257 blocks.
use cheeri_os.Common.{
  ℕ, ◌+◌, ◌*◌, ◌≤◌, ◌<◌, ◌≡◌, ◌⊎◌, inl, inr, refl, some, arith, ap, ◌∙◌, ◌/◌, ◌==◌, if◌then◌else◌,
  Mem, load8, load32, Written, minus_one,
}
use cheeri_os.Strings.Length.{IsString}
use cheeri_os.FileSystem.Layout.{Fs, inode_length, num_inodes, num_dentries, block_addr, block_size}
use cheeri_os.FileSystem.Data.{read_data}
use cheeri_os.FileSystem.Data.Whole.{IsApart, bytes_from, total, read_data-Written}
use cheeri_os.FileSystem.Data.Large.{read_data-whole_block}
use cheeri_os.FileSystem.Directory.{read_dentry_by_name, dir_read}
use cheeri_os.FileSystem.Directory.Entry.{Copied}
use cheeri_os.FileSystem.Directory.ByName.{
  HasName, read_dentry_by_name-first, read_dentry_by_name-refused,
}
use cheeri_os.FileSystem.Directory.List.{dir_read-name}

-- The boot block at 4096 counts one entry and one inode; the entry "f" of type 2 at 4160 has inode 0, whose
-- length at 8192 is 3, and block 0, at 12288, begins with "xyz". At 60000 stands the name "f".
abbrev image : Mem
image a =
    if a == 4096
    then 1
    else if a == 4100
    then 1
    else if a == 4160
    then b'f'
    else if a == 4192
    then 2
    else if a == 8192
    then 3
    else if a == 12288
    then b'x'
    else if a == 12289
    then b'y'
    else if a == 12290
    then b'z'
    else if a == 60000
    then b'f'
    else 0

abbrev disk : Fs
disk = record { boot_block = 4096; inode_start = 8192; data_block_start = 12288; dir_count = 0 }

known : 0 < num_inodes image disk.boot_block
unfolding num_inodes load32
known = omega arith

length_three : inode_length image disk 0 ≡ 3
unfolding inode_length load32
length_three = refl

block_zero : block_addr image disk 0 0 ≡ 12288
unfolding block_addr load32
block_zero = refl

apart : IsApart image disk 0 70000 10
apart = record {
  from_length = omega arith;
  from_numbers = λ k lt. omega (arith, length_three);
  from_bytes = λ p lt.
      let zeroth : p / block_size ≡ 0 = omega (arith, length_three) in
      let first : block_addr image disk 0 (p / block_size) ≡ 12288 =
        ap (block_addr image disk 0) zeroth ∙ block_zero in
      omega (arith, first, length_three);
}

read_data-Written_example :
    (m : Mem) × (read_data disk 0 1 70000 10 image ≡ some (total image disk 0 1 70000 10, m))
    × Written image 70000 (total image disk 0 1 70000 10) (bytes_from image disk 0 1 70000 10) m
read_data-Written_example =
    read_data-Written image disk 0 1 70000 10 (omega arith) (omega (arith, length_three))
      (omega (arith, length_three)) apart known

-- the same, where the file has one byte more than 256 blocks
abbrev large : Mem
large a = if a == 8192 then 1 else if a == 8194 then 16 else image a

known-large : 0 < num_inodes large disk.boot_block
unfolding num_inodes load32
known-large = omega arith

length-large : inode_length large disk 0 ≡ 256 * 4096 + 1
unfolding inode_length load32
length-large = refl

block-large : block_addr large disk 0 256 ≡ 12288
unfolding block_addr load32
block-large = refl

read_data-whole_block_example :
    (m : Mem) × (read_data disk 0 (256 * 4096) 70000 5000 large ≡ some (4096, m))
    × Written large 70000 4096 (bytes_from large disk 0 (256 * 4096) 70000 5000) m
read_data-whole_block_example =
    read_data-whole_block large disk 0 256 70000 5000 (omega arith) (omega arith) known-large
      (omega arith) (omega arith) (omega (arith, length-large)) (omega (arith, length-large))
      (omega arith) (λ t lt. omega (arith, block-large))

name-IsString : IsString image 60000 1
name-IsString = record { nonzero = λ i lt. ground arith; ends = refl }

entry-IsString : IsString image 4160 1
entry-IsString = record { nonzero = λ i lt. ground arith; ends = refl }

entry-HasName : HasName image disk 60000 0
entry-HasName = λ j le lt nonzero. ground arith

read_dentry_by_name-first_example :
    (m : Mem) × (read_dentry_by_name disk 60000 70000 image ≡ some (0, m))
    × Copied image disk 0 1 70000 m
read_dentry_by_name-first_example =
    read_dentry_by_name-first image disk 60000 70000 1 0 1 name-IsString (omega arith) (omega arith)
      (omega arith) entry-HasName (λ j le lt. absurd (omega arith)) entry-IsString (omega arith)
      (omega arith)

read_dentry_by_name-refused_example :
    read_dentry_by_name disk 60000 0 image ≡ some (minus_one, image)
read_dentry_by_name-refused_example =
    read_dentry_by_name-refused image disk 60000 0 1 name-IsString (omega arith) (inr (inl refl))

one_entry : num_dentries image disk ≡ 1
unfolding num_dentries load32
one_entry = refl

dir_read-name_example :
    (m : Mem) × (dir_read disk 70000 80000 32 image ≡ some (1, record disk { dir_count = 1 }, m))
    × ((j : ℕ) → j < 1 → load8 m (80000 + j) ≡ load8 image (4160 + j))
    × ((a : ℕ)
        → (a < 80000) ⊎ (80000 + 1 ≤ a)
        → (a < 70000) ⊎ (70000 + 40 ≤ a)
        → load8 m a ≡ load8 image a)
dir_read-name_example =
    dir_read-name image disk 70000 80000 32 1 (omega (arith, one_entry)) (omega arith)
      entry-IsString (omega arith) (omega arith) (omega arith)
