-- ===== src/MemCopy/Tests.antt =====
-- The theorem on memcpy for 7 bytes from an address that is not aligned.
use cheeri_os.Common.{◌+◌, arith, Mem, load8, Written}
use cheeri_os.MemCopy.{memcpy}
use cheeri_os.MemCopy.Disjoint.{memcpy-Written}

-- each address holds its own number
abbrev numbers : Mem
numbers a = a

memcpy-Written_example :
    Written numbers 401 7 (λ j. load8 numbers (100 + j)) (memcpy 7 401 100 numbers)
memcpy-Written_example = memcpy-Written numbers 401 100 7 (omega arith)
