-- ===== src/Paging/Vidmap.antt =====
-- What the pointer that vidmap hands out reaches.
use cheeri_os.Common.{ℕ, ◌/◌, ◌%◌, ◌^◌, ◌==◌, if◌then◌else◌}
use cheeri_os.Paging.{Entry, Paging, set_entry, entry_at}

-- the entry of the directory and that of a table that a virtual address selects
abbrev pub directory_index : ℕ → ℕ
directory_index a = a / 2 ^ 22

abbrev pub table_index : ℕ → ℕ
table_index a = a / 2 ^ 12 % 2 ^ 10

-- the entries of the table before the loop
abbrev first_set : Paging → ℕ → Entry
first_set p = set_entry 0 (record (entry_at 0xB8 0 1 1) { user_supervisor = 1 }) p.vidmap_page

-- the assignments of the loop
abbrev absent : ℕ → Entry → Entry
absent i e = if i == 0 then e else entry_at 0 1 0 0
