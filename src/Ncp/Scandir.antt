-- ===== src/Ncp/Scandir.antt =====
-- src/src/server/ncp_22.c: the scan of a directory.
use frommel.Base.{
  ℕ, ◌+◌, ◌-◌, ◌/◌, ◌==◌, ◌&&◌, ◌||◌, Bool, not, Option, none, some, List, [], ◌∷◌, ◌++◌, map, take,
  length, replicate, get_elem?, if◌then◌else◌, ◌>>=◌, ltb, Str, codes, str_eq, to_upper, u8, u16,
  u32, bit_and, bit_or, ◌<<<◌, le16, le32, be32,
}
use frommel.Volume.{Volume, max_vol_path_len}
use frommel.Station.{Station}
use frommel.Fs.{build_path, split_last, error_ok, error_invalid_path}
use frommel.Trustee.{sysfile}
use frommel.Ncp.Fields.{Reply, Tm, complete, require, wrong_length, be32_at, text_field}
use frommel.Ncp.Space.{error_io}
use frommel.Ncp.Wildcards.{match_fn}

-- `struct dirent`: `behind` is what stands in `d_name` behind the terminator of the name.
pub record Dirent : Type 0 where
  pub name : Str
  pub behind : List ℕ
  pub type : ℕ

pub record Stat : Type 0 where
  pub mtime : ℕ
  pub size : ℕ

-- What a directory holds, what `stat` says of a path, what stands in `fs` where it fails, and the
-- local time.
pub record Shelf : Type 0 where
  pub readdir : Str → Option (List Dirent)
  pub file_stat : Str → Option Stat
  pub junk_stat : Stat
  pub localtime : ℕ → Tm

-- The low 16 bits, where `tm_year - 80` may be negative: 128 years are 2^16 here.
unfoldable pub date2nw : Shelf → ℕ → ℕ
date2nw env t =
    let lt = env.localtime t in
    u16 (bit_or (bit_or ((lt.year + 48) <<< 9) ((lt.month + 1) <<< 5)) lt.day)

unfoldable pub time2nw : Shelf → ℕ → ℕ
time2nw env t =
    let lt = env.localtime t in
    u16 (bit_or (bit_or (lt.hour <<< 11) (lt.minute <<< 5)) (lt.second / 2))

-- `d_type & DT_DIR`, which is 4
abbrev pub is_dir : Dirent → Bool
is_dir e = not (bit_and e.type 4 == 0)

-- The entries that are counted: directories or files, as `attr` has the bit 0x10 or not.
unfoldable pub is_wanted : Str → ℕ → Dirent → Bool
is_wanted pattern attr e =
    let dirs = not (bit_and attr 0x10 == 0) in
    ((match_fn e.name pattern || str_eq e.name pattern) && not (str_eq e.name sysfile))
    && (if is_dir e
        then dirs && (not (str_eq e.name (codes ".")) && not (str_eq e.name (codes "..")))
        else not dirs)

-- The loop of the scan, whose test comes after every entry, counted or not.
unfoldable pub scan_entries : (Dirent → Bool) → ℕ → ℕ → List Dirent → Option Dirent
scan_entries wanted seqno curseq [] = none
scan_entries wanted seqno curseq (e ∷ es) =
    let counted = if wanted e then u32 (curseq + 1) else curseq in
    let later = scan_entries wanted seqno counted es in if seqno == counted then some e else later

-- The 12 bytes of the name: what stands behind a shorter one goes with it.
abbrev pub name_field : Dirent → List ℕ
name_field e = map to_upper (take 12 (e.name ++ 0 ∷ e.behind))

-- `NCP_SCANFILE`: the date and time stand for the creation and for the update. `snprintf` reads the
-- array that it writes the path to, and is taken to work as if these were two.
unfoldable pub scan_reply : Shelf → Str → ℕ → Dirent → Reply
scan_reply env dir seqno e =
    let st : Stat = elim (env.file_stat (take (max_vol_path_len - 1) (dir ++ (b'/' ∷ e.name)))) [
      | none ↦ env.junk_stat
      | some st ↦ st
    ] in
    let time = le16 (time2nw env st.mtime) in
    let date = le16 (date2nw env st.mtime) in
    (
      0,
      be32 (u32 (seqno + 1))
          ++ (replicate 4 0
              ++ ((if is_dir e then 0x10 else 0x20)
                    ∷ 0
                    ∷ 0
                    ∷ 0
                    ∷ 0
                    ∷ 0
                    ∷ 0
                    ∷ u8 (length e.name)
                    ∷ name_field e
                  ++ (time
                      ++ (date
                          ++ (0 ∷ 0 ∷ 0 ∷ 1 ∷ replicate 8 0
                              ++ (time
                                  ++ (date
                                      ++ (replicate 4 0
                                          ++ ((if is_dir e then replicate 4 0 else le32 st.size)
                                              ++ replicate 76 0))))))))),
    )

module _ (env : Shelf) (vols : List Volume) (k : Station) where
  -- The path is cut in two at its last slash; one without a slash is a fault.
  abbrev pub scan_path : ℕ → ℕ → Str → Option Reply
  scan_path attr seqno path = do
    (dir, pattern) ← split_last b'/' path
    some (elim (env.readdir dir) [
      | none ↦ complete error_invalid_path
      | some es ↦ elim (scan_entries (is_wanted pattern attr) seqno 0xfffffffe es) [
        | none ↦ complete 0xff
        | some e ↦ scan_reply env dir seqno e
      ]
    ])

  unfoldable pub handle_scandir : List ℕ → ℕ → Option Reply
  handle_scandir body size =
      let parsed : Option Reply = do
        dh ← get_elem? body 0
        attr ← get_elem? body 1
        seqno ← be32_at body 2
        path_len ← get_elem? body 6
        path ← text_field body 7 path_len
        (code, realpath) ← build_path vols k dh (some path) [] max_vol_path_len 0
        (if code == error_ok then scan_path attr seqno realpath else some (complete error_io))
      in require (not (ltb size 7)) wrong_length parsed
