-- ===== src/Paging.antt =====
-- student-distrib/paging.c, and vidmap of student-distrib/system_call.c: the page directory, the table of
-- the first 4 MB and the table of the video page that user programs see. A page_struct is a record of
-- its bit fields; an assignment to one cuts the value to the field's width. The tables' addresses are
-- set by the linker and are parameters. enable_paging and flush_tlb (paging_enable.S,
-- system_call_helper.S) are a flag and a counter.
pub mod Init
pub mod Vidmap
mod Tests
use cheeri_os.Common.{
  ℕ, zero, suc, Bool, true, ◌+◌, ◌*◌, ◌/◌, ◌%◌, ◌^◌, ◌==◌, ltb, ◌&&◌, ◌||◌, if◌then◌else◌, Mem,
  store32, word, add32, minus_one,
}

pub record Entry : Type 0 where
  pub present : ℕ
  pub read_write : ℕ
  pub user_supervisor : ℕ
  pub write_through : ℕ
  pub cache_disabled : ℕ
  pub accessed : ℕ
  pub reserved : ℕ
  pub page_size : ℕ
  pub global_page : ℕ
  pub avail : ℕ
  pub base_address : ℕ

pub record Paging : Type 0 where
  pub page_directory : ℕ → Entry
  pub first_page_table : ℕ → Entry
  pub vidmap_page : ℕ → Entry
  pub enabled : ℕ
  pub flushes : ℕ

abbrev pub total_entries : ℕ
total_entries = 1024

abbrev pub video_mem_idx : ℕ
video_mem_idx = 184

abbrev pub video_mem_base_addr : ℕ
video_mem_base_addr = 0xB8

abbrev pub multilimit : ℕ
multilimit = 4

-- `value >> EMPTY_BITS`, cut to the 20 bits of base_address
abbrev pub page_number : ℕ → ℕ
page_number value = value / 2 ^ 12 % 2 ^ 20

abbrev pub set_entry : ℕ → Entry → (ℕ → Entry) → ℕ → Entry
set_entry i e table = λ j. if j == i then e else table j

-- the entry that most assignments of the file describe
abbrev pub entry_at : (base cache_disabled read_write present : ℕ) → Entry
entry_at base c w p = record {
  present = p;
  read_write = w;
  user_supervisor = 0;
  write_through = 0;
  cache_disabled = c;
  accessed = 0;
  reserved = 0;
  page_size = 0;
  global_page = 0;
  avail = 0;
  base_address = base;
}

-- `for (i = 0; i < TOTAL_ENTRIES; i++)` with the assignments `f` to entry `i`, and `n` rounds left
pub entries_loop : (ℕ → Entry → Entry) → ℕ → ℕ → (ℕ → Entry) → ℕ → Entry
entries_loop f zero i table = table
entries_loop f (suc n) i table = entries_loop f n (i + 1) (set_entry i (f i (table i)) table)

abbrev pub each_entry : (ℕ → Entry → Entry) → (ℕ → Entry) → ℕ → Entry
each_entry f = entries_loop f total_entries 0

-- the body of the second loop
pub table_entry : ℕ → Entry
table_entry i =
    if i == video_mem_idx
    then entry_at video_mem_base_addr 0 0 1
    else if ltb video_mem_idx i && ltb i (video_mem_idx + multilimit)
    then entry_at (page_number (i * 0x1000)) 0 0 1
    else entry_at (page_number (i * 0x1000)) 1 0 0

-- `first_page_table` is the address of the table.
pub paging_init : ℕ → Paging → Paging
paging_init first_page_table p =
    let dir = each_entry (λ i e. entry_at 0 1 1 0) p.page_directory in
    let dir' =
      set_entry 0
        (record (dir 0) {
          base_address = page_number first_page_table;
          present = 1;
          read_write = 0;
        })
        dir in
    let dir'' =
      set_entry 1 (record (dir' 1) { base_address = 0x400; present = 1; page_size = 1 }) dir' in
    record p {
      page_directory = dir'';
      first_page_table = each_entry (λ i e. table_entry i) p.first_page_table;
      enabled = 1;
    }

abbrev pub program_page_idx : ℕ
program_page_idx = 32

pub process_page : ℕ → Paging → Paging
process_page idx p = record p {
  page_directory =
      set_entry program_page_idx
        (record (p.page_directory program_page_idx) {
          base_address = page_number (add32 0x800000 (idx * 0x400000));
          present = 1;
          page_size = 1;
          user_supervisor = 1;
        })
        p.page_directory;
}

abbrev pub user_idx_vidmem : ℕ
user_idx_vidmem = 34

abbrev pub vidmem_loc : ℕ
vidmem_loc = 0x08800000

-- `USER_TOP > screen_start || screen_start > USER_ESP + EXEC_SIZE`
abbrev pub outside_user : ℕ → Bool
outside_user p = ltb p 0x08000000 || ltb (0x083FFFFC + 4) p

-- `vidmap_page` is the address of the table.
unfoldable pub vidmap : (vidmap_page screen_start : ℕ) → Paging → Mem → ℕ × Paging × Mem
vidmap vidmap_page screen_start p m =
    if screen_start == 0 || outside_user screen_start then (minus_one, p, m) else (
      0,
      record p {
        page_directory =
            set_entry user_idx_vidmem
              (record (p.page_directory user_idx_vidmem) {
                base_address = page_number vidmap_page;
                present = 1;
                user_supervisor = 1;
              })
              p.page_directory;
        vidmap_page =
            each_entry (λ i e. if i == 0 then e else entry_at 0 1 0 0)
              (set_entry 0 (record (entry_at video_mem_base_addr 0 1 1) { user_supervisor = 1 })
                p.vidmap_page);
        flushes = p.flushes + 1;
      },
      store32 m screen_start vidmem_loc,
    )
