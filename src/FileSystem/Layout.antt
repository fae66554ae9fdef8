-- ===== src/FileSystem/Layout.antt =====
-- boot_block_t, dentry_t and inode_t as offsets from the addresses that file_sys_init computes.
use cheeri_os.Common.{ℕ, ◌+◌, ◌*◌, Mem, load32, add32}

abbrev pub block_size : ℕ
block_size = 4096

abbrev pub num_files_name : ℕ
num_files_name = 32

abbrev pub num_files : ℕ
num_files = 63

abbrev pub num_data_blocks : ℕ
num_data_blocks = 1023

-- the global pointers of file_system.c, and its dir_count
pub record Fs : Type 0 where
  pub boot_block : ℕ
  pub inode_start : ℕ
  pub data_block_start : ℕ
  pub dir_count : ℕ

-- boot_block_t: three words, 52 reserved bytes, then the 63 entries.
unfoldable pub num_dentries : Mem → Fs → ℕ
num_dentries m fs = load32 m fs.boot_block

unfoldable pub num_inodes : Mem → ℕ → ℕ
num_inodes m boot_block = load32 m (boot_block + 4)

-- dentry_t: 32 bytes of name, the type, the inode and 24 reserved bytes.
abbrev pub dentry_size : ℕ
dentry_size = 64

abbrev pub dir_ent : Fs → ℕ → ℕ
dir_ent fs i = fs.boot_block + 64 + dentry_size * i

abbrev pub file_name : ℕ → ℕ
file_name dentry = dentry

abbrev pub file_type : ℕ → ℕ
file_type dentry = dentry + 32

abbrev pub inode_num : ℕ → ℕ
inode_num dentry = dentry + 36

-- inode_t: the length, then 1023 block numbers.
abbrev pub inode_at : Fs → ℕ → ℕ
inode_at fs inode = fs.inode_start + block_size * inode

unfoldable pub inode_length : Mem → Fs → ℕ → ℕ
inode_length m fs inode = load32 m (inode_at fs inode)

abbrev pub block_num_at : Fs → ℕ → ℕ → ℕ
block_num_at fs inode k = inode_at fs inode + 4 + 4 * k

-- the address of the k-th data block of an inode
unfoldable pub block_addr : Mem → Fs → ℕ → ℕ → ℕ
block_addr m fs inode k =
    add32 fs.data_block_start (block_size * load32 m (block_num_at fs inode k))

unfoldable pub file_sys_init : Mem → Fs → ℕ → Fs
unfolding num_inodes
file_sys_init m fs start_addr =
    let inodes = start_addr + block_size in
    record fs {
      boot_block = start_addr;
      inode_start = inodes;
      data_block_start = add32 inodes (num_inodes m start_addr * block_size);
    }
