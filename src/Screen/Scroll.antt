-- ===== src/Screen/Scroll.antt =====
-- What scrollscreen and clear leave in the video memory.
use cheeri_os.Common.{
  ℕ, zero, suc, ◌+◌, ◌-◌, ◌*◌, ◌≤◌, ◌<◌, ◌≡◌, ◌⊎◌, arith, Mem, load8, store8, ap, refl, ◌%◌, ◌∙◌,
}
use cheeri_os.Screen.{
  Screen, video, attrib, num_cols, num_rows, newline_offset, scroll_loop, blank_loop, scrollscreen,
  clear_loop, clear,
}

-- the characters of the cells before `i` are those of the row below in `m0`
record Scrolled (m0 : Mem) (i : ℕ) (m : Mem) : Type 0 where
  char : (j : ℕ) → j < i → load8 m (video + j * 2) ≡ load8 m0 (video + j * 2 + num_cols * 2)
  attribute : (j : ℕ) → j < i → load8 m (video + j * 2 + 1) ≡ attrib
  same : (a : ℕ) → (a < video) ⊎ (video + i * 2 ≤ a) → load8 m a ≡ load8 m0 a

module _ {m0 : Mem} where
  scroll_loop-Scrolled :
      (k i n : ℕ) {m : Mem} → i + k ≡ n → Scrolled m0 i m → Scrolled m0 n (scroll_loop k i m)
  unfolding scroll_loop store8
  scroll_loop-Scrolled zero i n e s = let e' : i ≡ n = omega arith in rw (← e') s
  scroll_loop-Scrolled (suc k) i n {m} e s =
      scroll_loop-Scrolled k (i + 1) n (omega arith) (record {
        char = λ j lt. ground (arith, s.char j, s.same (video + i * 2 + num_cols * 2), at_char j);
        attribute = λ j lt. ground (arith, s.attribute j);
        same = λ a out. ground (arith, s.same a);
      })
    where
      at_char : (j : ℕ) → j ≡ i → load8 m0 (video + j * 2 + 160) ≡ load8 m0 (video + i * 2 + 160)
      at_char j e = ap (λ t. load8 m0 (video + t * 2 + 160)) e

-- the second loop, where `m1` has the attribute in each cell of the first row
record Blanked (m1 : Mem) (i : ℕ) (m : Mem) : Type 0 where
  blank : (j : ℕ) → j < i → load8 m (video + newline_offset + j * 2) ≡ b' '
  same :
      (a : ℕ)
      → (a < video + newline_offset) ⊎ (video + newline_offset + i * 2 ≤ a) ⊎ (a % 2 ≡ 1)
      → load8 m a ≡ load8 m1 a

module _ {m1 : Mem}
    (first_row : (j : ℕ) → j < num_cols → load8 m1 (video + j * 2 + 1) ≡ attrib) where
  blank_loop-Blanked :
      (k i : ℕ) {m : Mem}
      → i + k ≡ num_cols
      → Blanked m1 i m
      → Blanked m1 num_cols (blank_loop k i m)
  unfolding blank_loop store8
  blank_loop-Blanked zero i e s = let e' : i ≡ num_cols = omega arith in rw (← e') s
  blank_loop-Blanked (suc k) i {m} e s = blank_loop-Blanked k (i + 1) (omega arith) (record {
    blank = λ j lt. ground (arith, s.blank j);
    same = λ a out. ground (arith, s.same a, first_row i, at_attribute a);
  })
    where
      at_attribute : (a : ℕ) → a ≡ video + i * 2 + 1 → load8 m1 a ≡ load8 m1 (video + i * 2 + 1)
      at_attribute a e = ap (load8 m1) e

-- The rows after scrollscreen: each but the last has the characters of the row below it and the usual
-- attribute, and the last has spaces.
pub record IsScrolled (m0 m : Mem) : Type 0 where
  pub moved :
      (j : ℕ)
      → j < (num_rows - 1) * num_cols
      → (load8 m (video + j * 2) ≡ load8 m0 (video + (j + num_cols) * 2))
        × (load8 m (video + j * 2 + 1) ≡ attrib)
  pub last :
      (j : ℕ)
      → j < num_cols
      → (load8 m (video + newline_offset + j * 2) ≡ b' ')
        × (load8 m (video + newline_offset + j * 2 + 1)
            ≡ load8 m0 (video + newline_offset + j * 2 + 1))
  pub same : (a : ℕ) → (a < video) ⊎ (video + num_rows * num_cols * 2 ≤ a) → load8 m a ≡ load8 m0 a

-- scrollscreen moves each row up by one, sets their attributes and fills the last row with spaces, whose
-- attributes stay as they were; it changes no byte outside the video memory, and no global.
pub scrollscreen-IsScrolled :
    (s : Screen)
    → let t = scrollscreen s in
      IsScrolled s.mem t.mem
      × (t.screen_x ≡ s.screen_x)
      × (t.screen_y ≡ s.screen_y)
      × (t.newlinecheck ≡ s.newlinecheck)
unfolding scrollscreen
scrollscreen-IsScrolled s = (rows, refl, refl, refl)
  where
    m1 : Mem
    m1 = scroll_loop ((num_rows - 1) * num_cols) 0 s.mem

    up : Scrolled s.mem ((num_rows - 1) * num_cols) m1
    up =
        scroll_loop-Scrolled ((num_rows - 1) * num_cols) 0 ((num_rows - 1) * num_cols) (omega arith)
          (record {
            char = λ j lt. absurd (omega arith);
            attribute = λ j lt. absurd (omega arith);
            same = λ a out. refl;
          })

    down : Blanked m1 num_cols (blank_loop num_cols 0 m1)
    down =
        blank_loop-Blanked (λ j lt. up.attribute j (omega arith)) num_cols 0 (omega arith)
          (record { blank = λ j lt. absurd (omega arith); same = λ a out. refl })

    rows : IsScrolled s.mem (blank_loop num_cols 0 m1)
    rows = record {
      moved = λ j lt. (
        down.same (video + j * 2) (omega arith) ∙ up.char j lt ∙ ap (load8 s.mem) (omega arith),
        down.same (video + j * 2 + 1) (omega arith) ∙ up.attribute j lt,
      );
      last = λ j lt. (
        down.blank j lt,
        down.same (video + newline_offset + j * 2 + 1) (omega arith)
            ∙ up.same (video + newline_offset + j * 2 + 1) (omega arith),
      );
      same = λ a out. down.same a (omega arith) ∙ up.same a (omega arith);
    }

-- the cells before `i`
record Cleared (m0 : Mem) (i : ℕ) (m : Mem) : Type 0 where
  cells :
      (j : ℕ) → j < i → (load8 m (video + j * 2) ≡ b' ') × (load8 m (video + j * 2 + 1) ≡ attrib)
  same : (a : ℕ) → (a < video) ⊎ (video + i * 2 ≤ a) → load8 m a ≡ load8 m0 a

clear_loop-Cleared :
    {m0 : Mem} (k i n : ℕ) {m : Mem} → i + k ≡ n → Cleared m0 i m → Cleared m0 n (clear_loop k i m)
unfolding clear_loop store8
clear_loop-Cleared zero i n e s = let e' : i ≡ n = omega arith in rw (← e') s
clear_loop-Cleared (suc k) i n e s =
    clear_loop-Cleared k (i + 1) n (omega arith) (record {
      cells = λ j lt. ground (arith, s.cells j);
      same = λ a out. ground (arith, s.same a);
    })

-- clear puts a space with the usual attribute into each of the 2000 cells, and changes no other byte.
pub clear-cells :
    (s : Screen)
    → ((j : ℕ)
        → j < num_rows * num_cols
        → (load8 (clear s).mem (video + j * 2) ≡ b' ')
          × (load8 (clear s).mem (video + j * 2 + 1) ≡ attrib))
      × ((a : ℕ)
          → (a < video) ⊎ (video + num_rows * num_cols * 2 ≤ a)
          → load8 (clear s).mem a ≡ load8 s.mem a)
unfolding clear
clear-cells s = (done.cells, done.same)
  where
    done : Cleared s.mem (num_rows * num_cols) (clear s).mem
    done =
        clear_loop-Cleared (num_rows * num_cols) 0 (num_rows * num_cols) (omega arith)
          (record { cells = λ j lt. absurd (omega arith); same = λ a out. refl })
