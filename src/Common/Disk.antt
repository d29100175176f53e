-- ===== src/Common/Disk.antt =====
-- A file open for writing: what has been written, and how many of its bytes are on the disk.
-- A write appends, so the position of the file is its length.
use axm_embodied.Common.ByteStrings.{Bytes}
use axm_embodied.Common.Lists.{length}
use Prim.Native.Nat.{ℕ}
use mathlib.Core.List.{List, [], ◌∷◌, ◌++◌}

pub record File : Type 0 where
  pub content : Bytes
  pub durable : ℕ

abbrev pub empty_file : File
empty_file = record { content = []; durable = 0 }

abbrev pub write : Bytes → File → File
write b f = record f { content = f.content ++ b }

-- `f.tell()`
abbrev pub tell : File → ℕ
tell f = length f.content

-- `f.flush(); os.fdatasync(f.fileno())`: all that has been written is on the disk.
abbrev pub fdatasync : File → File
fdatasync f = record f { durable = length f.content }

abbrev pub write_all : List Bytes → File → File
write_all [] f = f
write_all (b ∷ bs) f = write_all bs (write b f)
