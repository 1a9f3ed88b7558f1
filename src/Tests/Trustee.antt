-- ===== src/Tests/Trustee.antt =====
-- Rights on the small server.
use frommel.Base.{
  window, ℕ, ◌≡◌, ◌≢◌, refl, none, some, List, [], ◌∷◌, arith, codes, replicate, Str, true,
  put_be32, put_be16, str_eq, IsUnique, get_elem?-lt, subst, ap, remove_at, get_be32, get_be16,
  join32, length, inl, inr, Bool-cases,
}
use frommel.Volume.{max_vol_path_len}
use frommel.Station.{Station, DirHandle, zero_station, zero_dh}
use frommel.Fs.{
  build_path, error_ok, split_at, split_last, build_from_dh, build_on_volume, append_part,
  finish_path, resolve_colon,
}
use frommel.Trustee.{
  Disk, DskRecord, Trustee, trustee_file, build_trustfile, scan_rights, scan_equals, zero_trustee,
  error_no_record, grab_rights, grab_from, scan_from, write_file, conv_rec,
}
use frommel.Trustee.Files.{Access, grant_right, remove_right, id_of, grant_in, new_record}
use frommel.Trustee.Grant.{stored, grant_right_lem}
use frommel.Trustee.Remove.{HasDistinctObjects, remove_right_lem}
use frommel.Trustee.Scan.{IsSilent, scan_rights-terminates, granted_inherits}
use frommel.Trustee.Equals.{only_first_equal}
use frommel.Tests.Data.{sys, volumes}

abbrev public : DirHandle
public = record { flags = 1; volno = 0; path = codes "public" }

abbrev pub user : Station
user = record zero_station { dh = public ∷ replicate 31 zero_dh }

-- All files can be written, there is none yet.
abbrev pub access : Access
access = record { create = λ f. true; write = λ f. true; truncate = λ f. true }

abbrev pub empty : Disk
empty f = none

abbrev file : Str
file = codes "/vol/sys/public/$TRUSTEE.SYS"

abbrev pub dir : Str
dir = codes "/vol/sys/public"

abbrev granted : Disk
granted = write_file empty file (new_record 5 0x4100 ∷ [])

built : build_path volumes user 0 none [] 256 0 ≡ some (error_ok, dir)
unfolding build_path split_at build_from_dh build_on_volume append_part finish_path resolve_colon
built = refl

grants : grant_right access volumes empty user 0 none 5 0x4100 ≡ some (error_ok, granted)
unfolding grant_right build_trustfile build_path grant_in split_at build_from_dh build_on_volume
    append_part finish_path resolve_colon
grants = refl

grant_right_lem_example :
    (f : Str) × (build_trustfile volumes user 0 none max_vol_path_len ≡ some (error_ok, f))
    × (stored granted f 5 ≡ some (record { obj_id = 5; rights = 0x4100 }))
    × ((other : ℕ) → other ≢ 5 → stored granted f other ≡ stored empty f other)
    × ((name : Str) → name ≢ f → granted name ≡ empty name)
grant_right_lem_example =
    grant_right_lem access volumes empty user 0 none 5 0x4100 (omega arith) (omega arith) grants

single-IsUnique : (d : DskRecord) → IsUnique id_of (d ∷ [])
single-IsUnique d = record {
  same = λ i j x y gi gj q.
      omega (arith, get_elem?-lt (d ∷ []) i {a = x} gi, get_elem?-lt (d ∷ []) j {a = y} gj);
}

granted-HasDistinctObjects : HasDistinctObjects granted
granted-HasDistinctObjects name records e = elim (Bool-cases (str_eq name file)) [
  | inl t ↦
      let same : (new_record 5 0x4100 ∷ []) ≡ records = ground (arith, t, e) in
      subst (IsUnique id_of) same (single-IsUnique (new_record 5 0x4100))
  | inr t ↦ ground (arith, t, e)
]

abbrev emptied : Disk
emptied = write_file granted file []

removes : remove_right access volumes granted user 0 none 5 0 ≡ some (error_ok, emptied)
unfolding remove_right build_trustfile build_path remove_at get_be32 put_be32 split_at build_from_dh
    build_on_volume append_part finish_path resolve_colon
removes = refl

remove_right_lem_example :
    (f : Str) × (build_trustfile volumes user 0 none max_vol_path_len ≡ some (error_ok, f))
    × (stored emptied f 5 ≡ none)
    × ((other : ℕ) → other ≢ 5 → stored emptied f other ≡ stored granted f other)
    × ((name : Str) → name ≢ f → emptied name ≡ granted name)
remove_right_lem_example =
    remove_right_lem access volumes granted user 0 none 5 0 granted-HasDistinctObjects removes

in_file : stored granted (trustee_file dir) 5 ≡ some (record { obj_id = 5; rights = 0x4100 })
unfolding stored grab_rights grab_from conv_rec get_be32 put_be32 get_be16 put_be16
in_file = refl

abbrev names : List Str
names = codes "b" ∷ codes "a" ∷ []

names-IsSilent : IsSilent granted volumes 0 5 sys dir names
unfolding stored grab_rights split_last
names-IsSilent = (
  refl,
  refl,
  λ e. ground (arith, ap length e),
  (refl, refl, λ e. ground (arith, ap length e), tt),
)

granted_inherits_example :
    scan_rights granted volumes 0 5 (codes "/vol/sys/public/a/b") zero_trustee
    ≡ some (error_ok, record { obj_id = 5; rights = 0x4100 })
granted_inherits_example =
    granted_inherits access volumes empty user 0 none 5 0x4100 0 names zero_trustee (omega arith)
      (omega arith) grants built refl names-IsSilent

root-IsSilent : IsSilent empty volumes 0 5 sys sys.path names
unfolding stored grab_rights split_last
root-IsSilent = (
  refl,
  refl,
  λ e. ground (arith, ap length e),
  (refl, refl, λ e. ground (arith, ap length e), tt),
)

root_split : split_last b'/' sys.path ≡ some (codes "/vol", codes "sys")
unfolding split_last
root_split = refl

root_empty : stored empty (trustee_file sys.path) 5 ≡ none
unfolding stored grab_rights
root_empty = refl

scan_rights-terminates_example :
    (res : ℕ × Trustee) × (scan_rights empty volumes 0 5 (codes "no/slash/first") zero_trustee
      ≡ some res)
scan_rights-terminates_example =
    scan_rights-terminates empty volumes 0 5 sys (codes "no/slash/first") zero_trustee refl

-- A user that equals object 7, and then object 5, which has rights on the directory.
abbrev equals : List ℕ
equals = 0 ∷ 0 ∷ 0 ∷ 7 ∷ 0 ∷ 0 ∷ 0 ∷ 5 ∷ replicate 120 0

first_window : window equals 0 ≡ some 7
unfolding join32
first_window = refl

no_right_of_7 :
    scan_rights granted volumes 0 7 dir zero_trustee ≡ some (error_no_record, zero_trustee)
unfolding scan_rights scan_from grab_rights grab_from conv_rec get_be32 put_be32 get_be16 put_be16
    split_last
no_right_of_7 = refl

only_first_equal_example :
    scan_equals granted volumes 33 0 0 equals dir zero_trustee
    ≡ some (error_no_record, zero_trustee)
only_first_equal_example =
    only_first_equal granted volumes 0 equals dir 0 7 zero_trustee (omega arith)
      (λ j lt. elim lt [ ]) first_window (λ e. omega arith) no_right_of_7
