-- ===== src/Station.antt =====
-- src/include/conn.h: the record of one service connection. The kernel's handles, the addresses and
-- the clock enter as numbers.
use frommel.Base.{ℕ, ◌==◌, ◌&&◌, Bool, not, Option, some, List, [], Str, replicate, length, ◌≡◌}

abbrev pub status_unused : ℕ
status_unused = 0

abbrev pub status_attached : ℕ
status_attached = 1

abbrev pub max_msg_len : ℕ
max_msg_len = 128

abbrev pub dh_max_path_len : ℕ
dh_max_path_len = 256

abbrev pub dh_per_conn : ℕ
dh_per_conn = 32

abbrev pub sh_max_path_len : ℕ
sh_max_path_len = 256

abbrev pub sh_per_conn : ℕ
sh_per_conn = 16

abbrev pub fh_per_conn : ℕ
fh_per_conn = 64

-- `struct ipx_addr`: the network, the node and the socket.
pub record Addr : Type 0 where
  pub net : ℕ
  pub host : ℕ
  pub port : ℕ

-- `DIRHANDLE`
pub record DirHandle : Type 0 where
  pub flags : ℕ
  pub volno : ℕ
  pub path : Str

-- `SEARCHANDLE`
pub record SearchHandle : Type 0 where
  pub path : Str
  pub relpath : Str
  pub dh : ℕ
  pub scan_right : ℕ

-- `CONNECTION`. A file handle is its descriptor, `none` where the source has -1.
pub record Station : Type 0 where
  pub status : ℕ
  pub addr : Addr
  pub seq_no : ℕ
  pub task_no : ℕ
  pub login_time : ℕ
  pub last_time : ℕ
  pub wdog_time : ℕ
  pub object_id : ℕ
  pub object_type : ℕ
  pub object_supervisor : ℕ
  pub login_key : List ℕ
  pub message : Str
  pub message_ok : ℕ
  pub dh : List DirHandle
  pub sh : List SearchHandle
  pub fh : List (Option ℕ)

abbrev pub zero_addr : Addr
zero_addr = record { net = 0; host = 0; port = 0 }

abbrev pub zero_dh : DirHandle
zero_dh = record { flags = 0; volno = 0; path = [] }

abbrev pub zero_sh : SearchHandle
zero_sh = record { path = []; relpath = []; dh = 0; scan_right = 0 }

-- The record after `bzero`: every file handle is then descriptor 0, not -1.
abbrev pub zero_station : Station
zero_station = record {
  status = 0;
  addr = zero_addr;
  seq_no = 0;
  task_no = 0;
  login_time = 0;
  last_time = 0;
  wdog_time = 0;
  object_id = 0;
  object_type = 0;
  object_supervisor = 0;
  login_key = replicate 8 0;
  message = [];
  message_ok = 0;
  dh = replicate dh_per_conn zero_dh;
  sh = replicate sh_per_conn zero_sh;
  fh = replicate fh_per_conn (some 0);
}

-- The handle arrays have their declared sizes.
pub record IsSized (k : Station) : Type 0 where
  pub dirs : length k.dh ≡ dh_per_conn
  pub searches : length k.sh ≡ sh_per_conn
  pub files : length k.fh ≡ fh_per_conn

-- `!bcmp (net) && !bcmp (host)`: the socket is not compared.
abbrev pub same_node : Addr → Addr → Bool
same_node a b = a.net == b.net && a.host == b.host

-- `status != CONN_STATUS_UNUSED`
abbrev pub in_use : Station → Bool
in_use k = not (k.status == status_unused)
