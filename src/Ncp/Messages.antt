-- ===== src/Ncp/Messages.antt =====
-- src/src/server/ncp_21.c: the broadcast messages.
use frommel.Base.{
  ℕ, zero, suc, ◌+◌, ◌-◌, ◌^◌, ◌==◌, ◌||◌, Option, some, List, [], ◌∷◌, ◌++◌, get_elem?, drop,
  replicate, if◌then◌else◌, ◌>>=◌, ◌>>◌, in_bounds, ltb, leb, bit_or, ◌<<<◌, Two, u16, u8, two_at,
  slice, Str, length, has_nul, c_string,
}
use frommel.Station.{Station, max_msg_len}
use frommel.Ncp.{Answer, answer, require_length, error_wrong_length}

-- `NCP_REQUIRE_LENGTH_MIN`
abbrev pub require_length_min : Station → ℕ → ℕ → Option Answer → Option Answer
require_length_min k size required a =
    if ltb size required then some (answer k error_wrong_length []) else a

unfoldable pub handle_enable_bcast : Station → ℕ → Option Answer
handle_enable_bcast k size =
    require_length k size 1 (some (answer (record k { message_ok = 1 }) 0 []))

unfoldable pub handle_disable_bcast : Station → ℕ → Option Answer
handle_disable_bcast k size =
    require_length k size 1 (some (answer (record k { message_ok = 0 }) 0 []))

-- `ncp_handle_getmsg` and `ncp_handle_getmsg_old` are the same; `len` is a byte.
unfoldable pub handle_getmsg : Station → ℕ → Option Answer
handle_getmsg k size =
    let len = u8 (length k.message) in
    let told : Option Answer = do
      text ← slice k.message 0 len
      some (answer (record k { message = [] }) 0 (len ∷ text))
    in require_length k size 1 told

-- `message`, zeroed and then written with `len` bytes from byte `i` of the packet on.
abbrev pub message_at : List ℕ → ℕ → ℕ → Option (List ℕ)
message_at body i len = do
  in_bounds (leb len max_msg_len)
  text ← slice body i len
  some (text ++ replicate (max_msg_len - len) 0)

-- One round for every station that is named: `strcpy (conn[c]->message, message)`.
abbrev pub copy_to_sender : ℕ → Str → Station → Station
copy_to_sender zero text k = k
copy_to_sender (suc n) text k = copy_to_sender n text (record k { message = text })

abbrev pub sending : Station → List ℕ → Option Answer
sending k body = do
  nofstations ← get_elem? body 0
  in_bounds (leb (1 + nofstations) (length body))
  msg_len ← get_elem? body (1 + nofstations)
  message ← message_at body (2 + nofstations) msg_len
  in_bounds (has_nul message)
  some (
      answer (copy_to_sender nofstations (c_string message) k) 0
        (nofstations ∷ replicate nofstations 0))

unfoldable pub send_bcast_old : Station → List ℕ → ℕ → Option Answer
send_bcast_old k body size = require_length_min k size 3 (sending k body)

-- The message is only logged. That of a supervisor is searched for a `#`, to its terminator; the command
-- behind it does nothing, and the answer is the same.
unfoldable pub handle_console_bcast : Station → List ℕ → ℕ → Option Answer
handle_console_bcast k body size =
    let logged : Option Answer = do
      message_len ← get_elem? body 0
      message ← message_at body 1 message_len
      in_bounds (k.object_supervisor == 0 || has_nul message)
      some (answer k 0 [])
    in require_length_min k size 2 logged

abbrev pub subfunction : Station → ℕ → List ℕ → ℕ → Option Answer
subfunction k sub_func body size =
    if sub_func == 0
    then send_bcast_old k body size
    else if sub_func == 1
    then handle_getmsg k size
    else if sub_func == 2
    then handle_disable_bcast k size
    else if sub_func == 3
    then handle_enable_bcast k size
    else if sub_func == 9
    then handle_console_bcast k body size
    else if sub_func == 11
    then handle_getmsg k size
    else some (answer k 0xff [])

-- The length that the packet states, of which the cast leaves the low byte, counts unless it does not
-- match the size of the packet.
unfoldable pub sub_size : Two → ℕ → ℕ
sub_size stated size =
    let low = bit_or (u8 (stated.b0 <<< 8)) (u8 stated.b1) in
    if low + 2 == size then low else u16 (size + (2 ^ 16 - 2))

unfoldable pub handle_r21 : Station → List ℕ → ℕ → Option Answer
handle_r21 k body size = do
  sub_func ← get_elem? body 2
  stated ← two_at body 0
  subfunction k sub_func (drop 3 body) (sub_size stated size)
