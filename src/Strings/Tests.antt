-- ===== src/Strings/Tests.antt =====
-- Runs of the string functions, and their theorems at one place of a small memory.
use cheeri_os.Common.{◌≡◌, refl, some, arith, ◌==◌, if◌then◌else◌, Mem}
use cheeri_os.Strings.{strlen, strncmp}
use cheeri_os.Strings.Length.{IsString, strlen-IsString}

-- "ls" at 100 and "lx" at 200
abbrev text : Mem
text a =
    if a == 100
    then b'l'
    else if a == 101
    then b's'
    else if a == 200
    then b'l'
    else if a == 201
    then b'x'
    else 0

text-IsString : IsString text 100 2
text-IsString = record { nonzero = λ i lt. ground arith; ends = refl }

strlen-IsString_example : strlen text 100 ≡ some 2
strlen-IsString_example = (strlen-IsString text 100 2).1 (text-IsString, omega arith)

first_byte : strncmp text 100 200 1 ≡ 0
unfolding strncmp
first_byte = refl
