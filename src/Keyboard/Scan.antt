-- ===== src/Keyboard/Scan.antt =====
-- The scan codes that keyboard.h names.
use cheeri_os.Common.{ℕ}

abbrev pub crtl_check : ℕ
crtl_check = 0x26

abbrev pub enter : ℕ
enter = 0x1C

abbrev pub backspace : ℕ
backspace = 0x0E

abbrev pub tab : ℕ
tab = 0x0F

abbrev pub space : ℕ
space = 0x39

abbrev pub capslock : ℕ
capslock = 0x3A

abbrev pub lshift : ℕ
lshift = 0x2A

abbrev pub rshift : ℕ
rshift = 0x36

abbrev pub lshift_up : ℕ
lshift_up = 0xAA

abbrev pub rshift_up : ℕ
rshift_up = 0xB6

abbrev pub crtl : ℕ
crtl = 0x1D

abbrev pub crtl_up : ℕ
crtl_up = 0x9D

abbrev pub alt : ℕ
alt = 0x38

abbrev pub alt_up : ℕ
alt_up = 0xB8

abbrev pub f1 : ℕ
f1 = 0x3B
