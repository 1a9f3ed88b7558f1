-- ===== src/Ncp/Service.antt =====
-- src/src/server/ncp_22.c, src/src/server/ncp_34.c and src/src/server/ncp_87.c: the dispatch of functions 22,
-- 34 and 87.
use frommel.Base.{ℕ, ◌-◌, ◌==◌, Option, some, List, get_elem?, drop, if◌then◌else◌, ◌>>=◌, two_at}
use frommel.Station.{Station}
use frommel.Fs.{dh_perm}
use frommel.Trustee.{Disk}
use frommel.Ncp.Messages.{sub_size}
use frommel.Ncp.Fields.{Reply, complete, wrong_length}
use frommel.Ncp.Machine.{Machine, Filed, replied}
use frommel.Ncp.Dirs.{
  dh_temp, alloc_dirhandle, dealloc_dirhandle, handle_getdirpath, handle_setdirpath,
  handle_createdir, handle_deletedir,
}
use frommel.Ncp.Trustees.{
  handle_effrights, handle_geteffrights, handle_addtrusteetodir, handle_addexttrustee,
  handle_removetrusteefromdir, handle_scanextrust,
}
use frommel.Ncp.Space.{
  get_volinfo_handle, handle_getvolno, handle_getvolname, handle_scandiskrestrictions,
  handle_spacerest, getvolpurgeinfo,
}
use frommel.Ncp.Scandir.{Shelf, handle_scandir}

-- What has been done where only the connection, or nothing, is changed.
abbrev pub moved : Disk → Option (Station × Reply) → Option Filed
moved disk done = do (k, reply) ← done; some (replied k disk reply)

abbrev pub asked : Station → Disk → Option Reply → Option Filed
asked k disk done = do reply ← done; some (replied k disk reply)

module _ (m : Machine) (env : Shelf) (disk : Disk) (k : Station) where
  -- The subfunctions on directories and their handles; any other number is the last argument.
  abbrev pub directories : ℕ → List ℕ → ℕ → Option Filed → Option Filed
  directories sub_func body size others =
      if sub_func == 0
      then moved disk (handle_setdirpath m disk k body size)
      else if sub_func == 1
      then asked k disk (handle_getdirpath m disk k body size)
      else if sub_func == 10
      then handle_createdir m disk k body size
      else if sub_func == 11
      then handle_deletedir m disk k body size
      else if sub_func == 18
      then moved disk (alloc_dirhandle m disk k dh_perm body size)
      else if sub_func == 19
      then moved disk (alloc_dirhandle m disk k dh_temp body size)
      else if sub_func == 20
      then moved disk (dealloc_dirhandle m disk k body size)
      else if sub_func == 30
      then asked k disk (handle_scandir env m.vols k body size)
      else others

  abbrev pub rights : ℕ → List ℕ → ℕ → Option Filed → Option Filed
  rights sub_func body size others =
      if sub_func == 3
      then asked k disk (handle_effrights m disk k body size)
      else if sub_func == 13
      then handle_addtrusteetodir m disk k body size
      else if sub_func == 38
      then asked k disk (handle_scanextrust m disk k body size)
      else if sub_func == 39
      then handle_addexttrustee m disk k body size
      else if sub_func == 42
      then asked k disk (handle_geteffrights m disk k body size)
      else if sub_func == 43
      then handle_removetrusteefromdir m disk k body size
      else others

  abbrev pub space : ℕ → List ℕ → ℕ → Option Filed
  space sub_func body size =
      if sub_func == 5
      then asked k disk (handle_getvolno m body size)
      else if sub_func == 6
      then asked k disk (handle_getvolname m body size)
      else if sub_func == 21
      then asked k disk (get_volinfo_handle m k body size)
      else if sub_func == 32
      then asked k disk (handle_scandiskrestrictions m body size)
      else if sub_func == 41
      then asked k disk (handle_spacerest m body size)
      else if sub_func == 44
      then asked k disk (getvolpurgeinfo m body size)
      else if sub_func == 55
      then asked k disk (getvolpurgeinfo m body size)
      else some (replied k disk (complete 0xff))

  unfoldable pub handle_r22 : List ℕ → ℕ → Option Filed
  handle_r22 body size = do
    sub_func ← get_elem? body 2
    stated ← two_at body 0
    let sub = sub_size stated size
    directories sub_func (drop 3 body) sub
        (rights sub_func (drop 3 body) sub (space sub_func (drop 3 body) sub))

-- Transactions: none.
abbrev pub handle_tts_isavail : ℕ → Reply
handle_tts_isavail size = if size == 0 then complete 0 else wrong_length

-- The size without the byte of the subfunction, which is -1 where there is no byte.
abbrev pub tts : ℕ → Reply
tts size = if size == 0 then wrong_length else handle_tts_isavail (size - 1)

unfoldable pub handle_r34 : List ℕ → ℕ → Option Reply
handle_r34 body size = do
  sub_func ← get_elem? body 0
  some (if sub_func == 0 then tts size else complete 0xff)

abbrev pub handle_genbasevolno : Reply
handle_genbasevolno = complete 0xff

unfoldable pub handle_r87 : List ℕ → Option Reply
handle_r87 body = do
  sub_func ← get_elem? body 0
  some (if sub_func == 22 then handle_genbasevolno else complete 0xff)
