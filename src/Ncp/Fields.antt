-- ===== src/Ncp/Fields.antt =====
-- The fields of NCP requests, and what the functions of src/src/server/ncp_23.c answer with.
use frommel.Base.{
  ℕ, Bool, Option, some, List, [], if◌then◌else◌, ◌>>=◌, get_be16, get_be32, two_at, four_at, slice,
  Str, c_string,
}
use frommel.Station.{Station}
use frommel.BinderyIo.{Bindery, NetObj, NetProp}
use frommel.BinderyIo.Store.{Io}
use frommel.Ncp.{error_wrong_length}

-- A completion code and the data behind it.
abbrev pub Reply : Type 0
Reply = ℕ × List ℕ

abbrev pub complete : ℕ → Reply
complete code = (code, [])

-- A local time as C has it: a year counts from 1900, a month from 0.
pub record Tm : Type 0 where
  pub year : ℕ
  pub month : ℕ
  pub day : ℕ
  pub hour : ℕ
  pub minute : ℕ
  pub second : ℕ
  pub dayofweek : ℕ

-- What the functions use of the server: which bindery files can be written, the configuration,
-- `conn_loginenabled`, the local time, what `random` gives, and memory that was never written.
pub record Site : Type 0 where
  pub io : Io
  pub servername : Str
  pub nwversion : ℕ
  pub nofconns : ℕ
  pub serialno : ℕ
  pub appno : ℕ
  pub loginenabled : ℕ
  pub localtime : ℕ → Tm
  pub key : List ℕ
  pub new_id : ℕ
  pub new_valid : ℕ
  pub stack : List ℕ
  pub junk_obj : NetObj
  pub junk_prop : NetProp

-- What a function has done: its replies in order, the descriptors that are closed, and what is left.
pub record Handled : Type 0 where
  pub replies : List Reply
  pub closed : List ℕ
  pub conns : List Station
  pub bindery : Bindery

-- `NCP_REQUIRE_LENGTH` and `NCP_REQUIRE_LENGTH_MIN` are this with their tests; `refused` stands for the
-- code of a wrong length, and a state that is as it was.
abbrev pub require {ℓ} : {A : Type ℓ} → Bool → A → Option A → Option A
require fits refused rest = if fits then rest else some refused

abbrev pub wrong_length : Reply
wrong_length = complete error_wrong_length

-- Numbers at byte `i` of the request.
abbrev pub be16_at : List ℕ → ℕ → Option ℕ
be16_at body i = do n ← two_at body i; some (get_be16 n)

abbrev pub be32_at : List ℕ → ℕ → Option ℕ
be32_at body i = do n ← four_at body i; some (get_be32 n)

-- `len` bytes from byte `i` on, copied into a cleared array of NCP_MAX_FIELD_LEN bytes.
abbrev pub text_field : List ℕ → ℕ → ℕ → Option Str
text_field body i len = do s ← slice body i len; some (c_string s)
