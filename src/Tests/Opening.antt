-- ===== src/Tests/Opening.antt =====
-- A supervisor opens files in the login directory.
use frommel.Base.{
  ℕ, ◌≡◌, refl, arith, true, Option, none, some, List, [], ◌∷◌, ◌++◌, codes, replicate, Str, set,
}
use frommel.Volume.{max_vol_path_len}
use frommel.Station.{Station, zero_dh}
use frommel.Fs.{
  build_path, build_from_dh, build_on_volume, append_part, finish_path, resolve_colon, split_at,
  split_last, error_ok,
}
use frommel.Fs.Files.{find_free_fh}
use frommel.Trustee.{Disk, check_rights, get_rights}
use frommel.Conn.Logout.{login_dh}
use frommel.Tests.Data.{volumes, client}
use frommel.Opening.{Mode, mode_of, right_of, directory, is_sysfile, open_file}
use frommel.Opening.Rights.{Opens, open_file-Opens, open_file-sysfile}

abbrev disk : Disk
disk path = none

abbrev no_property : ℕ → Str → ℕ → Option (List ℕ)
no_property objid name segno = none

-- Every path is a plain file, and gets descriptor 5.
abbrev plain_file : Str → Option ℕ
plain_file path = some 0x81a4

abbrev fifth : Str → Mode → Option ℕ
fifth path mode = some 5

abbrev boss : Station
boss = record (client 7 100 0) {
  object_supervisor = 1;
  dh = login_dh ∷ replicate 31 zero_dh;
  fh = some 3 ∷ none ∷ replicate 62 (some 0);
}

abbrev boss_with_file : Station
boss_with_file = record boss { fh = set boss.fh 1 (some 5) }

opens :
    open_file disk volumes no_property plain_file fifth boss 0 1 (codes "A.TXT")
    ≡ some (error_ok, some 1, boss_with_file)
unfolding open_file find_free_fh check_rights get_rights build_path build_from_dh build_on_volume
    append_part finish_path resolve_colon split_at split_last directory is_sysfile mode_of right_of
opens = refl

open_file-Opens_example :
    Opens disk volumes no_property plain_file fifth boss 0 1 (codes "A.TXT") 1 boss_with_file
open_file-Opens_example =
    open_file-Opens disk volumes no_property plain_file fifth boss 0 1 (codes "A.TXT") {handle = 1}
      {k' = boss_with_file} opens

-- The dot of the trustee file, as some clients send it.
abbrev disguised : Str
disguised = codes "$TRUSTEE" ++ (0xae ∷ codes "SYS")

free : find_free_fh boss ≡ some 1
unfolding find_free_fh
free = refl

allowed :
    check_rights disk volumes no_property boss 0 (directory disguised) (right_of 1) ≡ some true
unfolding check_rights get_rights directory right_of split_last
allowed = refl

built :
    build_path volumes boss 0 (some disguised) [] max_vol_path_len 0
    ≡ some (error_ok, codes "/vol/sys/login" ++ (b'/' ∷ disguised))
unfolding build_path build_from_dh build_on_volume append_part finish_path resolve_colon split_at
built = refl

open_file-sysfile_example :
    open_file disk volumes no_property plain_file fifth boss 0 1 disguised
    ≡ some (error_ok, some 1, boss_with_file)
open_file-sysfile_example =
    open_file-sysfile disk volumes no_property plain_file fifth boss 0 1 disguised
      (codes "/vol/sys/login") 1 5 0x81a4 (omega arith) free allowed built refl refl
      (λ q. omega arith) refl
