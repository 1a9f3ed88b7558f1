-- ===== src/Tests/Fs.antt =====
-- Paths on the small server.
use frommel.Base.{
  ◌≡◌, refl, ◌<◌, ◌≤◌, none, some, [], ◌∷◌, arith, codes, length, replicate, Option, Str,
}
use frommel.Volume.{find_volume}
use frommel.Station.{Station, DirHandle, zero_station, zero_dh}
use frommel.Fs.{build_path, error_ok, upper}
use frommel.Fs.Path.{build_path_joins, full_path}
use frommel.Tests.Data.{sys, volumes}

abbrev public : DirHandle
public = record { flags = 1; volno = 0; path = codes "public" }

abbrev user : Station
user = record zero_station { dh = public ∷ replicate 31 zero_dh }

abbrev file : Option Str
file = some (codes "a\\b.txt")

build_path_joins_example :
    (length (full_path sys public file) < 256
      → build_path volumes user 0 file [] 256 0 ≡ some (error_ok, codes "/vol/sys/public/a/b.txt"))
    × (256 ≤ length (full_path sys public file) → build_path volumes user 0 file [] 256 0 ≡ none)
build_path_joins_example =
    build_path_joins volumes user 0 file [] 256 public sys refl (λ e. omega arith) refl
      (omega arith)

abbrev elsewhere : Option Str
elsewhere = some (codes "sys:x")

sys_known : find_volume volumes (upper (codes "sys")) ≡ some 0
unfolding find_volume
sys_known = refl
