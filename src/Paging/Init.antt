-- ===== src/Paging/Init.antt =====
-- What paging_init leaves in the directory and the table, and where process_page maps a program.
use cheeri_os.Common.{
  ℕ, zero, suc, ◌+◌, ◌*◌, ◌%◌, ◌≤◌, ◌<◌, ◌≡◌, ◌≢◌, refl, arith, ltb, leb, ◌&&◌, if◌then◌else◌, word,
  ap,
}
use cheeri_os.Paging.{
  Entry, Paging, total_entries, set_entry, entry_at, entries_loop, each_entry, table_entry,
  paging_init, process_page,
}

entries_loop-at :
    (f : ℕ → Entry → Entry) (n i : ℕ) (table : ℕ → Entry) (j : ℕ)
    → entries_loop f n i table j ≡ (if leb i j && ltb j (i + n) then f j (table j) else table j)
unfolding entries_loop
entries_loop-at f zero i table j = ground arith
entries_loop-at f (suc n) i table j =
    ground (arith, entries_loop-at f n (i + 1) (set_entry i (f i (table i)) table) j, same)
  where
    same : j ≡ i → f j (table j) ≡ f i (table i)
    same e = ap (λ t. f t (table t)) e

pub each_entry-at :
    (f : ℕ → Entry → Entry) (table : ℕ → Entry) (j : ℕ)
    → j < total_entries
    → each_entry f table j ≡ f j (table j)
each_entry-at f table j lt = ground (arith, entries_loop-at f total_entries 0 table j)

-- An entry maps its page or table if present is 1, and to the physical address of base_address.
abbrev pub physical : Entry → ℕ
physical e = e.base_address * 0x1000

-- the directory
paging_init-directory :
    (table : ℕ) (p : Paging) (j : ℕ)
    → table < word
    → table % 0x1000 ≡ 0
    → let q = paging_init table p in
      (physical (q.page_directory 0) ≡ table)
      × ((q.page_directory 0).present ≡ 1)
      × ((q.page_directory 0).page_size ≡ 0)
      × (physical (q.page_directory 1) ≡ 0x400000)
      × ((q.page_directory 1).present ≡ 1)
      × ((q.page_directory 1).page_size ≡ 1)
      × ((q.page_directory 1).user_supervisor ≡ 0)
      × (2 ≤ j → j < total_entries → (q.page_directory j).present ≡ 0)
unfolding paging_init
paging_init-directory table p j small aligned =
    let f : ℕ → Entry → Entry = λ i e. entry_at 0 1 1 0 in
    let at : (i : ℕ) → i < total_entries → each_entry f p.page_directory i ≡ entry_at 0 1 1 0 =
      λ i lt. each_entry-at f p.page_directory i lt in
    (
      omega arith,
      refl,
      ap (λ e. e.page_size) (at 0 (omega arith)),
      refl,
      refl,
      refl,
      ap (λ e. e.user_supervisor) (at 1 (omega arith)),
      λ two lt. ground (arith, ap (λ e. e.present) (at j lt)),
    )

table_entry-fields :
    (j : ℕ)
    → j < total_entries
    → let e = table_entry j in
      (e.present ≡ (if leb 184 j && ltb j 188 then 1 else 0))
      × (physical e ≡ j * 0x1000)
      × (e.user_supervisor ≡ 0)
unfolding table_entry
table_entry-fields j lt = ground arith

-- the table of the first 4 MB
paging_init-table :
    (table : ℕ) (p : Paging) (j : ℕ)
    → j < total_entries
    → let e = (paging_init table p).first_page_table j in
      (e.present ≡ (if leb 184 j && ltb j 188 then 1 else 0))
      × (physical e ≡ j * 0x1000)
      × (e.user_supervisor ≡ 0)
unfolding paging_init
paging_init-table table p j lt =
    rw (each_entry-at (λ i e. table_entry i) p.first_page_table j lt) (table_entry-fields j lt)

-- After paging_init, for a page table at a page of the first 4 GB, the first directory entry is present and leads to
-- the table, the second is the 4 MB page of the kernel at 4 MB, for the supervisor only, and no other is
-- present. Of the first 4 MB four pages are present, 0xB8000 to 0xBBFFF (the screen and the pages
-- of the three terminals), each at its own address and for the supervisor only.
pub paging_init-Maps :
    (table : ℕ) (p : Paging) (j : ℕ)
    → table < word
    → table % 0x1000 ≡ 0
    → j < total_entries
    → let q = paging_init table p in
      let e = q.first_page_table j in
      (physical (q.page_directory 0) ≡ table)
      × ((q.page_directory 0).present ≡ 1)
      × ((q.page_directory 0).page_size ≡ 0)
      × (physical (q.page_directory 1) ≡ 0x400000)
      × ((q.page_directory 1).present ≡ 1)
      × ((q.page_directory 1).page_size ≡ 1)
      × ((q.page_directory 1).user_supervisor ≡ 0)
      × (2 ≤ j → j < total_entries → (q.page_directory j).present ≡ 0)
      × (e.present ≡ (if leb 184 j && ltb j 188 then 1 else 0))
      × (physical e ≡ j * 0x1000)
      × (e.user_supervisor ≡ 0)
paging_init-Maps table p j small aligned lt =
    let (a, b, c, d, e, f, g, h) = paging_init-directory table p j small aligned in
    let (x, y, z) = paging_init-table table p j lt in (a, b, c, d, e, f, g, h, x, y, z)

-- process_page maps the 4 MB at 128 MB, for user programs, to the idx-th 4 MB page from 8 MB on: the pages of
-- different processes do not overlap, nor does one overlap the kernel's. No other entry changes.
pub process_page-pages :
    (idx idx' j : ℕ) (p : Paging)
    → idx < 1022
    → idx' < 1022
    → let e = (process_page idx p).page_directory 32 in
      let e' = (process_page idx' p).page_directory 32 in
      (physical e ≡ 0x800000 + idx * 0x400000)
      × (e.present ≡ 1)
      × (e.page_size ≡ 1)
      × (e.user_supervisor ≡ 1)
      × (0x800000 ≤ physical e)
      × (idx < idx' → physical e + 0x400000 ≤ physical e')
      × (j ≢ 32 → (process_page idx p).page_directory j ≡ p.page_directory j)
unfolding process_page
process_page-pages idx idx' j p lt lt' =
    (omega arith, refl, refl, refl, omega arith, λ h. omega arith, λ ne. ground arith)
