-- ===== src/Screen/Bounds.antt =====
-- The cursor stays at most one column and one row behind the last ones, and no screen operation writes outside the video memory.
use cheeri_os.Common.{
  List, [], ◌∷◌, ℕ, ◌+◌, ◌-◌, ◌*◌, ◌≤◌, ◌<◌, ◌≡◌, ◌⊎◌, ◌∙◌, ◌||◌, ◌&&◌, not, inl, inr, refl, arith,
  ◌==◌, Mem, load8, store8, word, add32, slt, Bool-cases,
}
use cheeri_os.Screen.{
  Screen, video, num_cols, num_rows, scrollscreen, clear, clearscreen, putc, wrap_column, wrap_row,
  put_char, put_cell, movingcursor, location, newline_keyboard, left, back_line, back_cell,
  backspace_keyboard,
}
use cheeri_os.Screen.Scroll.{scrollscreen-IsScrolled, clear-cells}

-- The column may be 80 just after the last cell of a row, and the row 25 just after the last row. A line
-- that was wrapped (newlinecheck) or filled is not the first one.
pub record InScreen (s : Screen) : Type 0 where
  pub column : s.screen_x ≤ num_cols
  pub row : s.screen_y ≤ num_rows
  pub wrapped : (s.newlinecheck ≡ 0) ⊎ (s.newlinecheck ≡ 1) × (1 ≤ s.screen_y)
  pub filled : (s.screen_x < num_cols) ⊎ (1 ≤ s.screen_y)

-- `m` has the bytes of `m0` outside the video memory.
pub record SameOutside (m0 m : Mem) : Type 0 where
  pub at : (a : ℕ) → (a < video) ⊎ (video + num_rows * num_cols * 2 ≤ a) → load8 m a ≡ load8 m0 a

pub SameOutside-refl : (m : Mem) → SameOutside m m
SameOutside-refl m = record { at = λ a out. refl }

pub SameOutside-trans : {m0 m1 m2 : Mem} → SameOutside m0 m1 → SameOutside m1 m2 → SameOutside m0 m2
SameOutside-trans s t = record { at = λ a out. t.at a out ∙ s.at a out }

scrollscreen-SameOutside : (s : Screen) → SameOutside s.mem (scrollscreen s).mem
scrollscreen-SameOutside s = record { at = (scrollscreen-IsScrolled s).0.same }

wrap_row-SameOutside : (s : Screen) → SameOutside s.mem (wrap_row s).mem
unfolding wrap_row
wrap_row-SameOutside s = elim (Bool-cases (slt (num_rows - 1) s.screen_y)) [
  | inl e ↦ rw e (scrollscreen-SameOutside s)
  | inr e ↦ rw e (SameOutside-refl s.mem)
]

wrap_column-SameOutside : (s : Screen) → SameOutside s.mem (wrap_column s).mem
unfolding wrap_column
wrap_column-SameOutside s = elim (Bool-cases (s.screen_x == num_cols)) [
  | inl e ↦ rw e (SameOutside-refl s.mem)
  | inr e ↦ rw e (SameOutside-refl s.mem)
]

put_cell-SameOutside :
    (c : ℕ) (s : Screen) → location s < num_rows * num_cols → SameOutside s.mem (put_cell c s).mem
unfolding put_cell store8
put_cell-SameOutside c s lt = record { at = λ a out. ground arith }

-- What holds between the two tests of putc and its write.
record OnScreen (s : Screen) : Type 0 where
  column : s.screen_x < num_cols
  row : s.screen_y < num_rows
  wrapped : (s.newlinecheck ≡ 0) ⊎ (s.newlinecheck ≡ 1) × (1 ≤ s.screen_y)

wraps-OnScreen : {s : Screen} → InScreen s → OnScreen (wrap_row (wrap_column s))
unfolding wrap_row wrap_column
wraps-OnScreen {s} i = ground (arith, (scrollscreen-IsScrolled (wrap_column s)).3)

put_char-InScreen : (c : ℕ) {s : Screen} → OnScreen s → InScreen (put_char c s)
unfolding put_char
put_char-InScreen c {s} on = ground arith

put_char-SameOutside : (c : ℕ) {s : Screen} → OnScreen s → SameOutside s.mem (put_char c s).mem
unfolding put_char
put_char-SameOutside c {s} on = elim (Bool-cases (c == b'\n' || c == b'\r')) [
  | inl e ↦ rw e (SameOutside-refl s.mem)
  | inr e ↦ rw e (put_cell-SameOutside c s (omega arith))
]

-- `t` is a screen state that an operation may leave after `s`.
pub record Keeps (s t : Screen) : Type 0 where
  pub inside : InScreen t
  pub same : SameOutside s.mem t.mem

wraps-SameOutside : (s : Screen) → SameOutside s.mem (wrap_row (wrap_column s)).mem
wraps-SameOutside s =
    SameOutside-trans (wrap_column-SameOutside s) (wrap_row-SameOutside (wrap_column s))

movingcursor-Keeps : (n : ℕ) {s t : Screen} → Keeps s t → Keeps s (movingcursor n t)
unfolding movingcursor
movingcursor-Keeps n k = record { inside = ground (arith, k.inside); same = k.same }

OnScreen-InScreen : {s : Screen} → OnScreen s → InScreen s
OnScreen-InScreen on = ground arith

-- putc of any byte keeps the cursor in these bounds, and writes only to the video memory.
pub putc-Keeps : (c : ℕ) {s : Screen} → InScreen s → Keeps s (putc c s)
unfolding putc
putc-Keeps c {s} i = elim (Bool-cases (c == 0)) [
  | inl e ↦ rw e (record { inside = OnScreen-InScreen on; same = wraps-SameOutside s })
  | inr e ↦ rw e (
      movingcursor-Keeps _ (record {
        inside = put_char-InScreen c on;
        same = SameOutside-trans (wraps-SameOutside s) (put_char-SameOutside c on);
      }))
]
  where
    on : OnScreen (wrap_row (wrap_column s))
    on = wraps-OnScreen i

pub newline-Keeps : {s : Screen} → InScreen s → Keeps s (newline_keyboard s)
unfolding newline_keyboard movingcursor
newline-Keeps {s} i = elim (Bool-cases (slt (num_rows - 1) (add32 s.screen_y 1))) [
  | inl e ↦ rw e (record {
    inside =
        ground (
          arith,
          scrollscreen-IsScrolled (record s { screen_y = add32 s.screen_y 1; screen_x = 0 }),
        );
    same = scrollscreen-SameOutside (record s { screen_y = add32 s.screen_y 1; screen_x = 0 });
  })
  | inr e ↦ rw e (record { inside = ground arith; same = SameOutside-refl s.mem })
]

pub clear-Keeps : {s : Screen} → InScreen s → Keeps s (clear s)
unfolding clear
clear-Keeps {s} i = record {
  inside = record { column = i.column; row = i.row; wrapped = i.wrapped; filled = i.filled };
  same = record { at = (clear-cells s).1 };
}

pub clearscreen-Keeps : (s : Screen) → Keeps s (clearscreen s)
unfolding clearscreen movingcursor
clearscreen-Keeps s = record { inside = ground arith; same = record { at = (clear-cells s).1 } }

putc_space-column : {s : Screen} → InScreen s → 1 ≤ (putc b' ' s).screen_x
unfolding putc movingcursor put_char
putc_space-column {s} i = ground (arith, wraps-OnScreen i)

left-InScreen : {s : Screen} → InScreen s → 1 ≤ s.screen_x → InScreen (left s)
left-InScreen i lt = ground arith

back_cell-Keeps : {s : Screen} → InScreen s → 1 ≤ s.screen_x → Keeps s (back_cell s)
unfolding back_cell
back_cell-Keeps {s} i lt =
    let k = putc-Keeps b' ' (left-InScreen i lt) in
    let col = putc_space-column (left-InScreen i lt) in
    elim (Bool-cases (not (s.screen_y == 0) || s.screen_y == 0 && not (s.screen_x == 0))) [
      | inl e ↦ rw e (record { inside = left-InScreen k.inside col; same = k.same })
      | inr e ↦ rw e (record { inside = i; same = SameOutside-refl s.mem })
    ]

wraps_before :
    (s : Screen)
    → s.screen_x ≡ word - 1
    → 1 ≤ s.screen_y
    → s.screen_y ≤ num_rows
    → let t = wrap_row (wrap_column s) in
      (location t < num_rows * num_cols)
      × (1 ≤ t.screen_y)
      × (t.screen_y < num_rows)
      × ((t.screen_x ≡ word - 1) ⊎ (t.screen_x ≡ 0))
unfolding wrap_row wrap_column
wraps_before s col low high = ground arith

-- The write at column -1 goes to the last cell of the row above.
putc_before :
    (s : Screen)
    → s.screen_x ≡ word - 1
    → 1 ≤ s.screen_y
    → s.screen_y ≤ num_rows
    → SameOutside s.mem (putc b' ' s).mem
      × (1 ≤ (putc b' ' s).screen_y)
      × ((putc b' ' s).screen_y < num_rows)
unfolding putc movingcursor put_char
putc_before s col low high =
    let facts = wraps_before s col low high in
    (
      SameOutside-trans (wraps-SameOutside s)
          (put_cell-SameOutside b' ' (wrap_row (wrap_column s)) facts.0),
      ground (arith, facts),
      ground (arith, facts),
    )

back_line-Keeps :
    {s : Screen}
    → InScreen s
    → (1 ≤ s.screen_x) ⊎ (s.newlinecheck ≡ 1)
    → Keeps s (back_line s) × (1 ≤ (back_line s).screen_x)
unfolding back_line
back_line-Keeps {s} i start = elim (Bool-cases (s.screen_x == 0 && s.newlinecheck == 1)) [
  | inl e ↦
      let facts = putc_before (left s) (ground arith) (ground (arith, i)) i.row in
      rw e (record { inside = ground (arith, facts.1, facts.2); same = facts.0 }, omega arith)
  | inr e ↦ rw e (record { inside = i; same = SameOutside-refl s.mem }, ground arith)
]

-- backspace_keyboard keeps the cursor in these bounds, and writes only to the video memory.
pub backspace-Keeps : {s : Screen} → InScreen s → Keeps s (backspace_keyboard s)
unfolding backspace_keyboard
backspace-Keeps {s} i = elim (Bool-cases (s.newlinecheck == 0 && s.screen_x == 0)) [
  | inl e ↦ rw e (record { inside = i; same = SameOutside-refl s.mem })
  | inr e ↦
      let (k, col) = back_line-Keeps i (ground arith) in
      let k' = back_cell-Keeps k.inside col in
      rw e (
        movingcursor-Keeps _
          (record { inside = k'.inside; same = SameOutside-trans k.same k'.same }))
]

-- What the rest of the kernel calls.
pub data ScreenCall : Type 0 where
  put : ℕ → ScreenCall
  newline backspace clearing : ScreenCall

unfoldable pub call : ScreenCall → Screen → Screen
call (put c) s = putc c s
call newline s = newline_keyboard s
call backspace s = backspace_keyboard s
call clearing s = clearscreen s

unfoldable pub calls : List ScreenCall → Screen → Screen
unfolding call
calls [] s = s
calls (c ∷ cs) s = calls cs (call c s)

call-Keeps : (c : ScreenCall) {s : Screen} → InScreen s → Keeps s (call c s)
unfolding call
call-Keeps (put c) i = putc-Keeps c i
call-Keeps newline i = newline-Keeps i
call-Keeps backspace i = backspace-Keeps i
call-Keeps clearing i = clearscreen-Keeps _

-- However putc, newline_keyboard, backspace_keyboard and clearscreen are called one after the other, from
-- a cursor in columns 0 to 80 and rows 0 to 25 the cursor stays there, and no byte outside the 4000 of the
-- video memory changes.
pub calls-Keeps : (cs : List ScreenCall) {s : Screen} → InScreen s → Keeps s (calls cs s)
unfolding calls
calls-Keeps [] {s} i = record { inside = i; same = SameOutside-refl s.mem }
calls-Keeps (c ∷ cs) i =
    let k = call-Keeps c i in
    let k' = calls-Keeps cs k.inside in
    record { inside = k'.inside; same = SameOutside-trans k.same k'.same }
