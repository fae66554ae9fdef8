-- ===== src/Paging/Tests.antt =====
-- The theorems on paging, from tables of zeros.
use cheeri_os.Common.{ℕ, ◌+◌, ◌*◌, ◌≤◌, ◌<◌, ◌≡◌, ◌≢◌, arith, leb, ltb, ◌&&◌, if◌then◌else◌, Mem}
use cheeri_os.Paging.{Entry, Paging, entry_at, paging_init, process_page, total_entries}
use cheeri_os.Paging.Init.{physical, paging_init-Maps, process_page-pages}

abbrev cleared : ℕ → Entry
cleared i = entry_at 0 0 0 0

abbrev start : Paging
start = record {
  page_directory = cleared;
  first_page_table = cleared;
  vidmap_page = cleared;
  enabled = 0;
  flushes = 0;
}

paging_init-Maps_example :
    let q = paging_init 0x5000 start in
    let e = q.first_page_table 185 in
    (physical (q.page_directory 0) ≡ 0x5000)
    × ((q.page_directory 0).present ≡ 1)
    × ((q.page_directory 0).page_size ≡ 0)
    × (physical (q.page_directory 1) ≡ 0x400000)
    × ((q.page_directory 1).present ≡ 1)
    × ((q.page_directory 1).page_size ≡ 1)
    × ((q.page_directory 1).user_supervisor ≡ 0)
    × (2 ≤ 185 → 185 < total_entries → (q.page_directory 185).present ≡ 0)
    × (e.present ≡ (if leb 184 185 && ltb 185 188 then 1 else 0))
    × (physical e ≡ 185 * 0x1000)
    × (e.user_supervisor ≡ 0)
paging_init-Maps_example =
    paging_init-Maps 0x5000 start 185 (omega arith) (omega arith) (omega arith)

abbrev other : ℕ
other = 7

process_page-pages_example :
    let e = (process_page 1 start).page_directory 32 in
    let e' = (process_page 3 start).page_directory 32 in
    (physical e ≡ 0x800000 + 1 * 0x400000)
    × (e.present ≡ 1)
    × (e.page_size ≡ 1)
    × (e.user_supervisor ≡ 1)
    × (0x800000 ≤ physical e)
    × (1 < 3 → physical e + 0x400000 ≤ physical e')
    × (other ≢ 32 → (process_page 1 start).page_directory other ≡ start.page_directory other)
process_page-pages_example = process_page-pages 1 3 other start (omega arith) (omega arith)

abbrev memory : Mem
memory a = 0
