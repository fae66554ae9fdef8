-- ===== src/MemSet/Tests.antt =====
-- The theorems on memset and memmove, at three bytes that overlap their copy.
use cheeri_os.Common.{◌+◌, ◌%◌, ◌≡◌, leb, not, Mem, load8, Written}
use cheeri_os.MemSet.{memset, memmove}
use cheeri_os.MemSet.Fill.{memset-Written}
use cheeri_os.MemSet.Move.{memmove-Written}

abbrev counting : Mem
counting a = a

memset-Written_example : Written counting 1001 7 (λ j. 0x141 % 256) (memset 1001 0x141 7 counting)
memset-Written_example = memset-Written counting 1001 0x141 7

memmove-Written_example :
    let (flag, m) = memmove 1002 1000 3 counting in
    (flag ≡ not (leb 1002 1000)) × Written counting 1002 3 (λ j. load8 counting (1000 + j)) m
memmove-Written_example = memmove-Written counting 1002 1000 3
