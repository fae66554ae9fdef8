-- ===== src/Keyboard/Handler/Switch.antt =====
-- Switching between the terminals: what leaves the screen is kept, and comes back.
use cheeri_os.Common.{
  ℕ, ◌+◌, ◌≤◌, ◌<◌, ◌≡◌, ◌≢◌, ◌⊎◌, ◌∙◌, sym, arith, ◌==◌, true, false, ne→==, Mem, load8,
  Written-inside, Written-load8,
}
use cheeri_os.Screen.{Screen, video, movingcursor}
use cheeri_os.MemCopy.{memcpy}
use cheeri_os.MemCopy.Disjoint.{memcpy-Written}
use cheeri_os.Keyboard.State.{Keyboard, update_slot, on_screen}
use cheeri_os.Keyboard.Handler.{
  page, copy_size, save_cursor, save_page, show_terminal, switch_terminal, is_terminal,
}
use cheeri_os.Keyboard.Handler.Bounds.{IsKeyboard, switch_terminal-IsKeyboard}

-- The page and the slot of terminal `t` keep the screen `s`.
pub record Saved (t : ℕ) (s : Screen) (k : Keyboard) : Type 0 where
  pub cells : (j : ℕ) → j < copy_size → load8 k.screen.mem (page t + j) ≡ load8 s.mem (video + j)
  pub column : (k.slot t).saved_x ≡ s.screen_x
  pub row : (k.slot t).saved_y ≡ s.screen_y
  pub wrapped : (k.slot t).saved_newline ≡ s.newlinecheck

-- `u` shows what `s` shows, with the same cursor.
pub record Shows (s u : Screen) : Type 0 where
  pub cells : (j : ℕ) → j < copy_size → load8 u.mem (video + j) ≡ load8 s.mem (video + j)
  pub column : u.screen_x ≡ s.screen_x
  pub row : u.screen_y ≡ s.screen_y
  pub wrapped : u.newlinecheck ≡ s.newlinecheck

-- what a memcpy of 4000 bytes between pages does
module _ (m : Mem) (dest src : ℕ)
    (apart : (dest + copy_size ≤ src) ⊎ (src + copy_size ≤ dest)) where
  copied :
      (j : ℕ) → j < copy_size → load8 (memcpy copy_size dest src m) (dest + j) ≡ load8 m (src + j)
  copied j lt = Written-inside j (memcpy-Written m dest src copy_size apart) lt

  kept :
      (a : ℕ)
      → (a < dest) ⊎ (dest + copy_size ≤ a)
      → load8 (memcpy copy_size dest src m) a ≡ load8 m a
  kept a out = Written-load8 a (memcpy-Written m dest src copy_size apart) out

-- the state in which the shown terminal has been put away
abbrev leave : Keyboard → Keyboard
leave k =
    update_slot k.terminal_check
      (record (k.slot k.terminal_check) {
        saved_x = k.screen.screen_x;
        saved_y = k.screen.screen_y;
        saved_newline = k.screen.newlinecheck;
      })
      (on_screen (λ s. record s { mem = memcpy copy_size (page k.terminal_check) video s.mem }) k)

switch_terminal-opens :
    (t : ℕ) {k : Keyboard}
    → IsKeyboard k
    → t ≢ k.terminal_check
    → switch_terminal t k ≡ show_terminal t (leave k)
unfolding switch_terminal save_cursor save_page
switch_terminal-opens t {k} v other =
    let differ : (k.terminal_check == t) ≡ false = ne→== k.terminal_check t (λ e. other (sym e)) in
    rw (differ, v.terminal)

module _ (t : ℕ) {k : Keyboard} (v : IsKeyboard k) (other : t ≢ k.terminal_check)
    (real : is_terminal t ≡ true) where
  old_page :
      (page k.terminal_check + copy_size ≤ video) ⊎ (video + copy_size ≤ page k.terminal_check)
  old_page = ground (arith, v.terminal)

  new_page : (video + copy_size ≤ page t) ⊎ (page t + copy_size ≤ video)
  new_page = ground (arith, real)

  show_terminal-saves : Saved k.terminal_check k.screen (show_terminal t (leave k))
  unfolding show_terminal movingcursor
  show_terminal-saves = record {
    cells = λ j lt.
        kept (memcpy copy_size (page k.terminal_check) video k.screen.mem) video (page t) new_page
          (page k.terminal_check + j) (ground (arith, old_page))
        ∙ copied k.screen.mem (page k.terminal_check) video old_page j lt;
    column = ground arith;
    row = ground arith;
    wrapped = ground arith;
  }

  show_terminal-Shows : {s : Screen} → Saved t s k → Shows s (show_terminal t (leave k)).screen
  unfolding show_terminal movingcursor
  show_terminal-Shows {s} saved = record {
    cells = λ j lt.
        copied (memcpy copy_size (page k.terminal_check) video k.screen.mem) video (page t) new_page
          j lt
        ∙ kept k.screen.mem (page k.terminal_check) video old_page (page t + j) (omega arith)
        ∙ saved.cells j lt;
    column = ground (arith, saved.column);
    row = ground (arith, saved.row);
    wrapped = ground (arith, saved.wrapped);
  }

  -- Switching to another terminal keeps the 4000 bytes of the screen and the cursor that it leaves in the
  -- page and the slot of the terminal that was shown.
  pub switch_terminal-saves : Saved k.terminal_check k.screen (switch_terminal t k)
  switch_terminal-saves = rw (switch_terminal-opens t v other) show_terminal-saves

  -- Switching to a terminal that has a screen kept for it shows that screen: the same 4000 bytes and the
  -- same cursor.
  pub switch_terminal-Shows : {s : Screen} → Saved t s k → Shows s (switch_terminal t k).screen
  switch_terminal-Shows saved = rw (switch_terminal-opens t v other) (show_terminal-Shows saved)

switch_terminal-terminal :
    (t : ℕ) {k : Keyboard}
    → IsKeyboard k
    → t ≢ k.terminal_check
    → (switch_terminal t k).terminal_check ≡ t
unfolding show_terminal
switch_terminal-terminal t v other = rw (switch_terminal-opens t v other)

-- Switching to another terminal and back shows what was on the screen before, with the same cursor.
pub switch_terminal-back :
    (t : ℕ) {k : Keyboard}
    → IsKeyboard k
    → t ≢ k.terminal_check
    → is_terminal t ≡ true
    → Shows k.screen (switch_terminal k.terminal_check (switch_terminal t k)).screen
switch_terminal-back t {k} v other real =
    switch_terminal-Shows k.terminal_check (switch_terminal-IsKeyboard t real v)
      (λ e. other (sym (e ∙ switch_terminal-terminal t v other))) v.terminal
      (switch_terminal-saves t v other real)
