-- ===== src/Output/Tests.antt =====
-- The theorems on numbers, at one of three digits.
use cheeri_os.Common.{ℕ, ◌^◌, ◌-◌, ◌<◌, ◌≤◌, ◌⊎◌, [], false, true, ◌≡◌, inl, refl, arith, Mem, some}
use cheeri_os.Screen.{Screen}
use cheeri_os.Output.{itoa, convert}
use cheeri_os.Output.Digits.{IsNumeral, itoa-IsNumeral}
use cheeri_os.Output.Numbers.{ShowsNumber, ShowsNegative}
use cheeri_os.Output.Hex.{ShowsHex, convert-number}

abbrev blank : Mem
blank a = b' '

itoa-IsNumeral_example :
    (d : ℕ) × (m : Mem) × (itoa 391 1000 10 blank ≡ some m) × IsNumeral blank 391 1000 10 d m
itoa-IsNumeral_example = itoa-IsNumeral blank 391 1000 10 (inl refl) (omega arith)

abbrev clear_screen : Screen
clear_screen = record { mem = blank; screen_x = 0; screen_y = 0; newlinecheck = 0; outs = [] }

convert-number_example :
    ((t' : Screen) × (convert false b'x' 391 0x7F0000 clear_screen ≡ some t')
      × ShowsNumber 391 16 0x7F0000 clear_screen t')
    × ((t' : Screen) × (convert true b'x' 391 0x7F0000 clear_screen ≡ some t')
        × ShowsHex 391 0x7F0000 clear_screen t')
    × ((t' : Screen) × (convert false b'u' 391 0x7F0000 clear_screen ≡ some t')
        × ShowsNumber 391 10 0x7F0000 clear_screen t')
    × ((t' : Screen) × (convert false b'd' 391 0x7F0000 clear_screen ≡ some t')
        × (ShowsNumber 391 10 0x7F0000 clear_screen t' × (391 < 2 ^ 31)
            ⊎ ShowsNegative (2 ^ 32 - 391) 0x7F0000 clear_screen t' × (2 ^ 31 ≤ 391)))
convert-number_example =
    convert-number 391 0x7F0000 clear_screen (omega arith) (omega arith)
      (record { column = omega arith; row = omega arith; wrapped = inl refl; filled = omega arith })
