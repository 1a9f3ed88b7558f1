-- ===== src/Tests/Dirs.antt =====
-- Requests of function 22 on the small server.
use frommel.Base.{
  ℕ, ◌+◌, if◌then◌else◌, ◌≡◌, ◌≤◌, ◌^◌, ◌/◌, ◌-◌, ◌↔◌, ◌⊎◌, refl, arith, true, none, some, List, [],
  ◌∷◌, ◌++◌, codes, replicate, u32, get_elem?, get_be32, four_at, two_at, slice, str_eq,
}
use frommel.Fs.{
  build_path, error_ok, split_at, build_from_dh, build_on_volume, append_part, finish_path,
  resolve_colon,
}
use frommel.Fs.Path.{Free}
use frommel.Tests.Data.{sys, volumes}
use frommel.Tests.Trustee.{user, access, empty, dir}
use frommel.Ncp.Fields.{be16_at, be32_at, text_field}
use frommel.Ncp.Machine.{Machine, Statfs, make_dir}
use frommel.Ncp.Messages.{sub_size}
use frommel.Ncp.Dirs.{handle_createdir}
use frommel.Ncp.Space.{send_volinfo}
use frommel.Ncp.Scale.{send_volinfo-fits}
use frommel.Ncp.Wildcards.{match_one, match_fn}
use frommel.Ncp.Matching.{Dotted, match_fn-Literal}
use frommel.Ncp.Scandir.{Dirent, Shelf, is_wanted, scan_entries, handle_scandir}
use frommel.Ncp.Wanted.{IsListed}
use frommel.Ncp.Listing.{chosen, told, handle_scandir-chosen}
use frommel.Ncp.Service.{handle_r22}
use frommel.Ncp.Anyone.{create_dir, logged_in_as, restationed, login_unused}

-- A volume of about 40 GB in blocks of 4 KB.
abbrev large : Statfs
large = record { bsize = 4096; blocks = 10000000; bavail = 5000000; files = 1000; ffree = 500 }

send_volinfo-fits_example :
    (s : ℕ) × (reply : List ℕ) × (send_volinfo sys large ≡ some (0, reply))
    × (be16_at reply 0 ≡ some s)
    × (be16_at reply 2 ≡ some (10000000 / s))
    × (be16_at reply 4 ≡ some (5000000 / s))
    × ((s ≡ 1) ⊎ (2 ^ 16 ≤ 10000000 / (s - 2)))
send_volinfo-fits_example = send_volinfo-fits sys large (omega arith) (omega arith)

-- A dot at the end of a pattern need not be there in the name.
match_fn-Literal_example :
    (match_fn (codes "README") (codes "readme.") ≡ true) ↔ Dotted (codes "README") (codes "readme.")
match_fn-Literal_example =
    match_fn-Literal (codes "readme.") (codes "README")
      (refl, (refl, (refl, (refl, (refl, (refl, (refl, tt)))))))

matches_all : match_fn (codes "readme.txt") (codes "*.*") ≡ true
unfolding match_fn match_one
matches_all = refl

matches_ending : match_fn (codes "readme.txt") (codes "re??me.TX?") ≡ true
unfolding match_fn match_one
matches_ending = refl

abbrev file_a : Dirent
file_a = record { name = codes "a.txt"; behind = replicate 12 0; type = 8 }

abbrev file_b : Dirent
file_b = record { name = codes "b.txt"; behind = replicate 12 0; type = 8 }

abbrev dir_c : Dirent
dir_c = record { name = codes "c.txt"; behind = replicate 12 0; type = 4 }

abbrev entries : List Dirent
entries = file_a ∷ dir_c ∷ file_b ∷ []

abbrev shelf : Shelf
shelf = record {
  readdir = λ path. if str_eq path dir then some entries else none;
  file_stat = λ path. some (record { mtime = 0; size = 10 });
  junk_stat = record { mtime = 0; size = 0 };
  localtime = λ t. record {
    year = 102;
    month = 0;
    day = 1;
    hour = 12;
    minute = 0;
    second = 0;
    dayofweek = 2;
  };
}

-- Files, after the sequence number 0, by the pattern "*.txt": the second one.
abbrev scan_body : List ℕ
scan_body = 0 ∷ 0 ∷ 0 ∷ 0 ∷ 0 ∷ 0 ∷ 5 ∷ codes "*.txt"

scan_seqno : be32_at scan_body 2 ≡ some (u32 (0xffffffff + 1))
unfolding four_at get_be32
scan_seqno = refl

scan_name : text_field scan_body 7 5 ≡ some (codes "*.txt")
unfolding slice
scan_name = refl

scan_path :
    build_path volumes user 0 (some (codes "*.txt")) [] 256 0
    ≡ some (error_ok, dir ++ b'/' ∷ codes "*.txt")
unfolding build_path split_at build_from_dh build_on_volume append_part finish_path resolve_colon
scan_path = refl

pattern-Free : Free b'/' (codes "*.txt")
pattern-Free = (
  λ e. omega arith,
  (λ e. omega arith, (λ e. omega arith, (λ e. omega arith, (λ e. omega arith, tt)))),
)

second : get_elem? (chosen (is_wanted (codes "*.txt") 0) entries) 1 ≡ some file_b
unfolding is_wanted match_fn match_one
second = refl

handle_scandir-chosen_example :
    (handle_scandir shelf volumes user scan_body 12
      ≡ some (
          told shelf dir
            (u32 (0xffffffff + 1))
            (get_elem? (chosen (is_wanted (codes "*.txt") 0) entries) 1)))
    × ((e : Dirent) → (is_wanted (codes "*.txt") 0 e ≡ true) ↔ IsListed (codes "*.txt") 0 e)
    × ((e : Dirent)
        → be32_at (told shelf dir (u32 (0xffffffff + 1)) (some e)).1 0
          ≡ some (u32 (0xffffffff + 2)))
handle_scandir-chosen_example =
    handle_scandir-chosen shelf volumes user scan_body 12 0 0 5 1 (codes "*.txt") dir
      (codes "*.txt") entries (omega arith) (omega arith) refl refl scan_seqno refl scan_name
      scan_path pattern-Free refl

-- The sequence number 0xfffffffe, which no reply gives, is answered with whatever stands first.
skips_pattern : scan_entries (is_wanted (codes "z") 0) 0xfffffffe 0xfffffffe entries ≡ some file_a
unfolding scan_entries is_wanted match_fn match_one
skips_pattern = refl

abbrev machine : Machine
machine = record {
  exists = λ path. true;
  has_dir_bit = λ path. true;
  mkdir = λ path. true;
  rmdir = λ path. true;
  statfs = λ path. some large;
  vols = volumes;
  access = access;
  read_prop = λ id name n. none;
  stack = replicate 256 0;
  junk_id = 0;
}

-- Nobody is logged in, and the directory "new" is created.
abbrev create_body : List ℕ
create_body = 0 ∷ 7 ∷ 10 ∷ 0 ∷ 0xff ∷ 3 ∷ codes "new"

creates :
    handle_r22 machine shelf empty user create_body 9
    ≡ some (record {
      reply = (0, []);
      station = user;
      disk = empty;
      calls = make_dir (codes "/vol/sys/public/new") ∷ [];
    })
unfolding handle_r22 handle_createdir build_path split_at build_from_dh build_on_volume append_part
    finish_path resolve_colon sub_size slice two_at
creates = refl

login_unused_example :
    handle_r22 machine shelf empty (logged_in_as user 1 1 1) create_body 9
    ≡ restationed (logged_in_as user 1 1 1) (handle_r22 machine shelf empty user create_body 9)
login_unused_example = login_unused machine shelf empty user 1 1 1 10 create_body 9 create_dir refl
