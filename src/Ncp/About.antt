-- ===== src/Ncp/About.antt =====
-- src/src/server/ncp_23.c: what the server tells about itself.
use frommel.Base.{
  ℕ, ◌-◌, ◌/◌, ◌%◌, ◌==◌, Option, some, List, [], ◌∷◌, ◌++◌, get_elem?, take, length, replicate,
  if◌then◌else◌, ◌>>=◌, codes, be16, be32, u8,
}
use frommel.Volume.{max_vols}
use frommel.Station.{Station}
use frommel.Conn.{count_used}
use frommel.BinderyIo.{Bindery, scan_object_by_id}
use frommel.Ncp.Fields.{Reply, Site, complete, require, wrong_length}
use frommel.Ncp.Stations.{no_console_rights}

-- `NCP_SERVERINFO`
abbrev pub server_info : Site → ℕ → List ℕ
server_info env used =
    take 48 env.servername
    ++ (replicate (48 - length env.servername) 0
        ++ (u8 (env.nwversion / 100) ∷ u8 (env.nwversion % 100) ∷ be16 env.nofconns
            ++ (be16 used
                ++ (be16 max_vols
                    ++ (0 ∷ 2 ∷ 1 ∷ be16 used
                        ++ (1 ∷ 1 ∷ 1 ∷ 1 ∷ 1 ∷ 1 ∷ 0 ∷ 0 ∷ replicate 59 0))))))

unfoldable pub handle_server_info : Site → List Station → ℕ → Option Reply
handle_server_info env conns size =
    require (size == 1) wrong_length (some (0, server_info env (count_used conns)))

unfoldable pub handle_serialno : Site → ℕ → Option Reply
handle_serialno env size =
    require (size == 1) wrong_length (some (0, be32 env.serialno ++ be16 env.appno))

-- `FS_DESC_xxx` of src/include/config.h, each with its terminator
abbrev pub descriptions : List ℕ
descriptions =
    codes "Frommel"
    ++ (0 ∷ codes "Version 2.0a"
        ++ (0 ∷ codes "28 Aug 2001" ++ (0 ∷ codes "(c) 2001 Rink Springer")))

unfoldable pub handle_fsdesc : ℕ → Option Reply
handle_fsdesc size =
    require (size == 1) wrong_length
      (some (0, descriptions ++ replicate (512 - length descriptions) 0))

unfoldable pub handle_getloginstat : Site → ℕ → Option Reply
handle_getloginstat env size = require (size == 1) wrong_length (some (0, u8 env.loginenabled ∷ []))

-- The server is not brought down: the object of the supervisor is looked up for a line of the log.
unfoldable pub handle_downserver : Bindery → Station → List ℕ → ℕ → Option Reply
handle_downserver b k body size =
    let logged : Option Reply = do hit ← scan_object_by_id b.objs k.object_id; some (complete 0)
    in let asked : Option Reply = do
      force_flag ← get_elem? body 0
      (if k.object_supervisor == 0 then some (complete no_console_rights) else logged)
      in require (size == 2) wrong_length asked
