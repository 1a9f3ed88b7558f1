-- ===== src/Ncp/Machine.antt =====
-- What the functions on directories use of the machine: the kernel's file systems, and memory that was
-- never written.
use frommel.Base.{ℕ, Bool, Option, List, Str, []}
use frommel.Volume.{Volume}
use frommel.Station.{Station}
use frommel.Trustee.{Disk}
use frommel.Trustee.Files.{Access}
use frommel.Ncp.Fields.{Reply}

-- `struct statfs`
pub record Statfs : Type 0 where
  pub bsize : ℕ
  pub blocks : ℕ
  pub bavail : ℕ
  pub files : ℕ
  pub ffree : ℕ

-- Whether a path exists, and with the bit S_IFDIR in its mode; whether a directory can be created and
-- removed; the table of volumes; the value of an object's property; and what stood in a record that no
-- read has filled.
pub record Machine : Type 0 where
  pub exists : Str → Bool
  pub has_dir_bit : Str → Bool
  pub mkdir : Str → Bool
  pub rmdir : Str → Bool
  pub statfs : Str → Option Statfs
  pub vols : List Volume
  pub access : Access
  pub read_prop : ℕ → Str → ℕ → Option (List ℕ)
  pub stack : List ℕ
  pub junk_id : ℕ

-- What the kernel is asked to change.
pub data Call : Type 0 where
  make_dir : Str → Call
  remove_dir : Str → Call

-- What a function has done: its reply, the connection and the trustee files afterwards, and the calls of
-- the kernel.
pub record Filed : Type 0 where
  pub reply : Reply
  pub station : Station
  pub disk : Disk
  pub calls : List Call

-- Only a reply.
abbrev pub replied : Station → Disk → Reply → Filed
replied k disk reply = record { reply = reply; station = k; disk = disk; calls = [] }
