-- ===== src/Kernel/Tests.antt =====
-- The theorems on processes and their calls, in terminal 1, where a program runs on the shell. The file system
-- has one file "f" of three bytes.
use cheeri_os.Common.{
  ℕ, ◌+◌, ◌≤◌, ◌≡◌, ◌⊎◌, refl, some, arith, [], ◌∷◌, Each, Mem, Written, minus_one,
}
use cheeri_os.Strings.Length.{IsString}
use cheeri_os.FileSystem.Layout.{inode_length}
use cheeri_os.FileSystem.Data.Whole.{bytes_from}
use cheeri_os.FileSystem.Directory.Entry.{Copied}
use cheeri_os.FileSystem.Directory.ByName.{HasName}
use cheeri_os.Keyboard.Tables.{DataSegment}
use cheeri_os.Kernel.State.{
  Kernel, FileDescriptor, memory, set_memory, descriptor, set_descriptor, file_table,
}
use cheeri_os.Kernel.Sample.{bytes, disk, idle, both, frame}
use cheeri_os.Kernel.Sample.Facts.{both-IsOpenTable, known, length_three, disk-IsApart}
use cheeri_os.Kernel.Sample.Program.{ready, ready-IsLoadable}
use cheeri_os.Kernel.History.{calling, executing, halting, actions, actions-IsCounted}
use cheeri_os.Kernel.Process.Counts.{IsCounted}
use cheeri_os.Kernel.Files.{file_read}
use cheeri_os.Kernel.Files.Read.{remaining, file_read-Written}
use cheeri_os.Kernel.Calls.{open_entry, open_call, close}
use cheeri_os.Kernel.Calls.Descriptors.{IsLeastFree, AllUsed}
use cheeri_os.Kernel.Calls.Open.{close-open_entry}
use cheeri_os.Kernel.Calls.Lookup.{IsOpened, open_call-first}
use cheeri_os.Kernel.Calls.Steps.{IsRunning, opening, closing, pressing, events, events-IsRunning}
use cheeri_os.Kernel.Process.{launched, jump, launch, halt}
use cheeri_os.Kernel.Process.Parents.{IsLeft, halt-IsLeft}
use cheeri_os.Kernel.Process.RoundTrip.{halt-Started}
use cheeri_os.Kernel.Process.Launch.{Started}
use cheeri_os.Kernel.Process.Loaded.{entry_point, IsLoaded, launch-Loaded}

halt-IsLeft_example :
    (k' : Kernel ℕ) × (halt idle frame 70000 5 both ≡ some (jump 0x7FF001 0x7FF101 5, k'))
    × IsLeft both k'
halt-IsLeft_example = halt-IsLeft idle frame 70000 5 both refl (omega arith) (omega arith)

both-IsLeastFree : IsLeastFree both 2
both-IsLeastFree = (omega arith, omega arith, refl, λ j le lt. absurd (omega arith))

close-open_entry_example :
    let (new, k1) = open_entry 4160 both in
    let (value, k2) = close new k1 in
    (new ≡ 2)
    × (value ≡ 0)
    × ((j : ℕ) → descriptor k2 j ≡ descriptor both j)
    × (memory k2 ≡ memory both)
    × (close new k2 ≡ (minus_one, k2))
close-open_entry_example = close-open_entry 4160 2 both both-IsOpenTable both-IsLeastFree

both-IsRunning : IsRunning both
both-IsRunning = record {
  keyboard = record {
    terminal = refl;
    pointer = refl;
    screen = omega arith;
    slots = λ t. omega arith;
  };
  table = both-IsOpenTable;
}

abbrev segment : DataSegment
segment = record { past_scan = λ i. 0; past_chars = λ i. 0 }

events-IsRunning_example :
    Each
      (λ x. IsRunning x.1)
      (events idle (closing 5 ∷ pressing segment 0x10 ∷ opening 70000 60000 ∷ closing 2 ∷ []) both)
events-IsRunning_example =
    events-IsRunning idle (closing 5 ∷ pressing segment 0x10 ∷ opening 70000 60000 ∷ closing 2 ∷ [])
      both-IsRunning

name-IsString : IsString bytes 60000 1
name-IsString = record { nonzero = λ i lt. ground arith; ends = refl }

entry-IsString : IsString bytes 4160 1
entry-IsString = record { nonzero = λ i lt. ground arith; ends = refl }

entry-HasName : HasName bytes disk 60000 0
entry-HasName = λ j le lt nonzero. ground arith

open_call-first_example :
    (m : Mem) × Copied bytes disk 0 1 70000 m
    × (((fd : ℕ) × (f : FileDescriptor) × IsLeastFree both fd
          × IsOpened both 0 (descriptor both fd).fjt_ptr f
          × (open_call 70000 60000 both ≡ some (fd, set_descriptor fd f (set_memory m both))))
        ⊎ (AllUsed both × (open_call 70000 60000 both ≡ some (minus_one, set_memory m both))))
open_call-first_example =
    open_call-first both 60000 70000 1 0 1 name-IsString (omega arith) (omega arith) (omega arith)
      (omega arith) entry-HasName (λ j le lt. absurd (omega arith)) entry-IsString (omega arith)
      (omega arith)

child :
    (k' : Kernel ℕ) × (launch frame 0 ready ≡ some (launched (entry_point 0 ready), k'))
    × Started frame ready k'
    × IsLoaded frame 0 0 ready (memory k')
child = launch-Loaded frame 0 0 ready ready-IsLoadable

launch-Loaded_example :
    (k' : Kernel ℕ) × (launch frame 0 ready ≡ some (launched (entry_point 0 ready), k'))
    × Started frame ready k'
    × IsLoaded frame 0 0 ready (memory k')
launch-Loaded_example = launch-Loaded frame 0 0 ready ready-IsLoadable

halt-Started_example :
    (k'' : Kernel ℕ) × (halt idle frame 70000 5 child.0 ≡ some (jump 0x7FF001 0x7FF101 5, k''))
    × (k''.process_num ≡ 1)
    × ((t : ℕ) → k''.programs t ≡ ready.programs t)
    × (k''.active 1 ≡ 0)
    × (k''.curr ≡ 1)
halt-Started_example =
    halt-Started idle frame frame 70000 5 ready child.0 (omega arith) (omega arith) (omega arith)
      refl (omega arith) child.2

-- a descriptor for the file, after one byte
abbrev reading : Kernel ℕ
reading =
    set_descriptor 2 (record { fjt_ptr = file_table; inode = 0; file_pos = 1; flags = 1 }) both

file_read-Written_example :
    let f = descriptor reading 2 in
    let n = remaining 2 10 reading 70000 in
    (m : Mem) × (file_read 2 70000 10 reading
      ≡ some (n, set_descriptor 2 (record f { file_pos = f.file_pos + n }) (set_memory m reading)))
    × Written
        (memory reading)
        70000
        n
        (bytes_from (memory reading) reading.fs f.inode f.file_pos 70000 10)
        m
    × (f.file_pos + n ≤ inode_length (memory reading) reading.fs f.inode)
file_read-Written_example =
    file_read-Written 2 10 70000 reading (omega arith) (omega (arith, length_three))
      (omega (arith, length_three)) (disk-IsApart 70000 10 (omega arith)) known

both-IsCounted : IsCounted both
both-IsCounted = record { keyboard = both-IsRunning.keyboard; count = refl }

actions-IsCounted_example :
    Each
      (λ k. IsCounted k)
      (actions idle (calling (closing 5) ∷ halting frame 70000 5 ∷ executing frame 60000 ∷ []) both)
actions-IsCounted_example =
    actions-IsCounted idle
      (calling (closing 5) ∷ halting frame 70000 5 ∷ executing frame 60000 ∷ []) both-IsCounted
