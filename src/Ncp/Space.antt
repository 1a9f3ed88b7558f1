-- ===== src/Ncp/Space.antt =====
-- src/src/server/ncp_22.c and src/src/server/ncp.c: volumes by name and number, and the space on them.
use frommel.Base.{
  ℕ, zero, suc, ◌+◌, ◌-◌, ◌*◌, ◌/◌, ◌==◌, ◌||◌, not, Option, none, some, List, [], ◌∷◌, ◌++◌, map,
  get_elem?, length, replicate, if◌then◌else◌, ◌>>=◌, ◌>>◌, in_bounds, ltb, leb, Str, to_upper,
  bit_and, be16, le32, u8, u32,
}
use frommel.Volume.{Volume, find_volume, name_text, max_vols, max_vol_name_len, max_vol_path_len}
use frommel.Station.{Station}
use frommel.Fs.{build_path, error_ok}
use frommel.Ncp.Fields.{Reply, complete, require, wrong_length, be32_at, text_field}
use frommel.Ncp.Machine.{Machine, Statfs}

abbrev pub error_no_such_volume : ℕ
error_no_such_volume = 0x98

abbrev pub error_io : ℕ
error_io = 0x83

abbrev pub flag_removable : ℕ
flag_removable = 2

-- `while (blocks / scale > 0xffff) scale += 2;`; `none` is a loop that has not ended.
unfoldable pub scale_from : ℕ → ℕ → ℕ → Option ℕ
scale_from zero blocks scale = none
scale_from (suc fuel) blocks scale =
    let more = scale_from fuel blocks (scale + 2) in
    if leb (blocks / scale) 0xffff then some scale else more

-- The array `name` of a volume.
abbrev pub name_bytes : Volume → List ℕ
name_bytes v = v.name ++ replicate (max_vol_name_len - length v.name) 0

-- `NCP_VOLINFO`. The rounds of the loop that finds the scale are at most as many as there are blocks.
unfoldable pub send_volinfo : Volume → Statfs → Option Reply
send_volinfo v st = do
  scale ← scale_from (suc st.blocks) st.blocks 1
  some (
    0,
    be16 scale
        ++ (be16 (st.blocks / scale)
            ++ (be16 (st.bavail / scale)
                ++ (be16 st.files
                    ++ (be16 st.ffree
                        ++ (name_bytes v
                            ++ (if bit_and v.flags flag_removable == 0
                                then 0 ∷ 0 ∷ []
                                else 0xff ∷ 0xff ∷ [])))))),
  )

-- `convert_blocks` of src/src/lib/misc.c: a uint32 is never below 0. Blocks of size 0 are a fault.
unfoldable pub convert_blocks : ℕ → ℕ → ℕ → Option ℕ
convert_blocks blocks from to =
    if from == to
    then some blocks
    else if from == 0 || to == 0
    then none
    else if ltb to from
    then some (u32 (blocks * (from / to)))
    else some (u32 (blocks + 1) / (to / from))

module _ (m : Machine) where
  unfoldable pub get_volinfo_handle : Station → List ℕ → ℕ → Option Reply
  get_volinfo_handle k body size =
      let measured : ℕ → Str → Option Reply = λ dh path. elim (m.statfs path) [
        | none ↦ some (complete 0xff)
        | some st ↦ do h ← get_elem? k.dh dh; v ← get_elem? m.vols h.volno; send_volinfo v st
      ] in
      let asked : Option Reply = do
        dh ← get_elem? body 0
        (code, path) ← build_path m.vols k dh none [] max_vol_path_len 0
        (if code == error_ok then measured dh path else some (complete code))
      in require (size == 2) wrong_length asked

  unfoldable pub handle_getvolno : List ℕ → ℕ → Option Reply
  handle_getvolno body size =
      let named : ℕ → Option Reply = λ vol_len. do
        vol ← text_field body 1 vol_len
        some (elim (find_volume m.vols (map to_upper vol)) [
          | none ↦ complete 0xff
          | some i ↦ (0, u8 i ∷ [])
        ])
      in let parsed : Option Reply = do
        vol_len ← get_elem? body 0
        require (size == vol_len + 2) wrong_length (named vol_len)
        in require (not (ltb size 2)) wrong_length parsed

  -- The length is a char: from 128 on it is negative, a fault where it is copied.
  unfoldable pub handle_getvolname : List ℕ → ℕ → Option Reply
  handle_getvolname body size =
      let named : ℕ → Option Reply = λ vol_no. do
        v ← get_elem? m.vols vol_no
        in_bounds (ltb (length (name_text v)) 128)
        some (0, length (name_text v) ∷ name_text v)
      in let parsed : Option Reply = do
        vol_no ← get_elem? body 0
        (if leb max_vols vol_no then some (complete error_no_such_volume) else named vol_no)
        in require (size == 2) wrong_length parsed

  -- Not implemented: no restriction.
  unfoldable pub handle_scandiskrestrictions : List ℕ → ℕ → Option Reply
  handle_scandiskrestrictions body size =
      let told : Option Reply = do
        vol_no ← get_elem? body 0
        seq_no ← be32_at body 1
        some (0, 0 ∷ [])
      in require (size == 6) wrong_length told

  unfoldable pub handle_spacerest : List ℕ → ℕ → Option Reply
  handle_spacerest body size =
      let told : Option Reply = do
        volno ← get_elem? body 0
        obj_id ← be32_at body 1
        some (0, 0 ∷ 0 ∷ 0 ∷ 0x40 ∷ replicate 4 0)
      in require (size == 6) wrong_length told

  -- `NCP_VOLPURGEINFO` with the name behind it
  abbrev pub purge_info : Volume → Statfs → Option (List ℕ)
  purge_info v st = do
    total ← convert_blocks st.blocks st.bsize 512
    free ← convert_blocks st.bavail st.bsize 512
    some (
        le32 (total / 8)
        ++ (le32 (free / 8)
            ++ (replicate 8 0
                ++ (le32 st.files
                    ++ (le32 st.ffree
                        ++ (replicate 4 0 ++ (8 ∷ u8 (length (name_text v)) ∷ name_text v)))))))

  -- The volume number is not checked.
  unfoldable pub getvolpurgeinfo : List ℕ → ℕ → Option Reply
  getvolpurgeinfo body size =
      let told : Volume → Option Reply = λ v.
        if bit_and v.flags 1 == 0
        then some (complete error_no_such_volume)
        else elim (m.statfs v.path) [
          | none ↦ some (complete error_io)
          | some st ↦ do info ← purge_info v st; some (0, info)
        ] in
      let parsed : Option Reply = do volno ← get_elem? body 0; v ← get_elem? m.vols volno; told v
      in require (not (ltb size 1)) wrong_length parsed

  unfoldable pub send_volinfobyno : List ℕ → ℕ → Option Reply
  send_volinfobyno body size =
      let measured : Volume → Option Reply = λ v.
        if bit_and v.flags 1 == 0
        then some (complete 0xff)
        else elim (m.statfs v.path) [ none ↦ some (complete 0xff) | some st ↦ send_volinfo v st ] in
      let asked : Option Reply = do
        volno ← get_elem? body 0
        (if leb max_vols volno then some (complete 0xff) else (get_elem? m.vols volno >>= measured))
      in require (size == 1) wrong_length asked
