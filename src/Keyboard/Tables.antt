-- ===== src/Keyboard/Tables.antt =====
-- The arrays normal_chars and scan_pressed_normal. keyboard_handler reads both past their ends; what
-- stands there in the kernel's data segment is a parameter.
use cheeri_os.Common.{ℕ, zero, suc, ◌-◌, List, [], ◌∷◌, ltb, if◌then◌else◌}

abbrev pub uppercase_offset : ℕ
uppercase_offset = 48

abbrev pub num_chars : ℕ
num_chars = 95

abbrev pub num_scan : ℕ
num_scan = 48

unfoldable pub nth : List ℕ → ℕ → ℕ
nth [] i = 0
nth (x ∷ xs) zero = x
nth (x ∷ xs) (suc i) = nth xs i

abbrev pub normal_chars : List ℕ
normal_chars =
    49 ∷ 50 ∷ 51 ∷ 52 ∷ 53 ∷ 54 ∷ 55 ∷ 56 ∷ 57 ∷ 48 ∷ 45 ∷ 61 ∷ 113 ∷ 119 ∷ 101 ∷ 114 ∷ 116 ∷ 121
    ∷ 117 ∷ 105 ∷ 111 ∷ 112 ∷ 91 ∷ 93 ∷ 97 ∷ 115 ∷ 100 ∷ 102 ∷ 103 ∷ 104 ∷ 106 ∷ 107 ∷ 108 ∷ 59 ∷ 39
    ∷ 96 ∷ 92 ∷ 122 ∷ 120 ∷ 99 ∷ 118 ∷ 98 ∷ 110 ∷ 109 ∷ 44 ∷ 46 ∷ 47 ∷ 32 ∷ 33 ∷ 64 ∷ 35 ∷ 36 ∷ 37
    ∷ 94 ∷ 38 ∷ 42 ∷ 40 ∷ 41 ∷ 95 ∷ 43 ∷ 81 ∷ 87 ∷ 69 ∷ 82 ∷ 84 ∷ 89 ∷ 85 ∷ 73 ∷ 79 ∷ 80 ∷ 123 ∷ 125
    ∷ 65 ∷ 83 ∷ 68 ∷ 70 ∷ 71 ∷ 72 ∷ 74 ∷ 75 ∷ 76 ∷ 58 ∷ 34 ∷ 126 ∷ 124 ∷ 90 ∷ 88 ∷ 67 ∷ 86 ∷ 66 ∷ 78
    ∷ 77 ∷ 60 ∷ 62 ∷ 63 ∷ []

abbrev pub scan_pressed_normal : List ℕ
scan_pressed_normal =
    0x02 ∷ 0x03 ∷ 0x04 ∷ 0x05 ∷ 0x06 ∷ 0x07 ∷ 0x08 ∷ 0x09 ∷ 0x0a ∷ 0x0b ∷ 0x0c ∷ 0x0d ∷ 0x10 ∷ 0x11
    ∷ 0x12 ∷ 0x13 ∷ 0x14 ∷ 0x15 ∷ 0x16 ∷ 0x17 ∷ 0x18 ∷ 0x19 ∷ 0x1a ∷ 0x1b ∷ 0x1e ∷ 0x1f ∷ 0x20
    ∷ 0x21 ∷ 0x22 ∷ 0x23 ∷ 0x24 ∷ 0x25 ∷ 0x26 ∷ 0x27 ∷ 0x28 ∷ 0x29 ∷ 0x2b ∷ 0x2c ∷ 0x2d ∷ 0x2e
    ∷ 0x2f ∷ 0x30 ∷ 0x31 ∷ 0x32 ∷ 0x33 ∷ 0x34 ∷ 0x35 ∷ 0x39 ∷ []

-- the bytes behind the two arrays, by their distance from the end
pub record DataSegment : Type 0 where
  pub past_scan : ℕ → ℕ
  pub past_chars : ℕ → ℕ

unfoldable pub scan_at : DataSegment → ℕ → ℕ
unfolding nth
scan_at d i = if ltb i num_scan then nth scan_pressed_normal i else d.past_scan (i - num_scan)

unfoldable pub char_at : DataSegment → ℕ → ℕ
unfolding nth
char_at d i = if ltb i num_chars then nth normal_chars i else d.past_chars (i - num_chars)
