-- ===== src/Packet/Parse.antt =====
-- `SNMPPacket::parse` and its helpers.
pub mod Safety
pub mod Total
pub mod Fuel
pub mod Size
pub mod Reencode
pub mod Elements
pub mod Grammar
pub mod Length
pub mod Oversize
pub mod RoundTrip
pub mod Reads
pub mod Exact
use simple_snmpd.Base.{
  ℕ, zero, suc, ◌+◌, ◌-◌, ◌%◌, ◌*◌, false, not, ◌||◌, Bytes, length, ltb, ◌==◌, if◌then◌else◌,
  add_size, size_mod, bit_and, bit_or,
}
use simple_snmpd.Packet.{
  SnmpPacket, VariableBinding, set_version, set_community, set_pdu_type, set_request_id,
  set_error_status, set_error_index, add_variable_binding, clear_variable_bindings,
}
use simple_snmpd.Packet.Cursor.{
  Outcome, ok, stuck, Parser, bind_outcome, ◌>>=◌, ◌>>◌, pure, update, here, require, next, expect,
  require_more, require_room, copy, read_integer,
}

-- The loop of the long form: `len = (len << 8) | data[offset++]`.
unfoldable pub length_loop : Bytes → ℕ → ℕ → ℕ → Parser ℕ
length_loop input limit zero len c = ok len c
length_loop input limit (suc n) len c = bind_outcome (require_more limit c) (λ _ c1.
    bind_outcome (next input c1) (λ b. length_loop input limit n (bit_or (len * 256 % size_mod) b)))

-- The long form, on the number of length bytes.
abbrev pub long_form : Bytes → ℕ → ℕ → Parser ℕ
long_form input limit length_bytes =
    if length_bytes == 0 || ltb 4 length_bytes
    then require false >> pure 0
    else length_loop input limit length_bytes 0

unfoldable pub parse_length : Bytes → ℕ → Parser ℕ
parse_length input limit = do
  require_more limit
  first_byte ← next input
  if bit_and first_byte 0x80 == 0
      then pure first_byte
      else long_form input limit (bit_and first_byte 0x7f)

-- An INTEGER field: its tag, its length, and its bytes shifted into an unsigned type of range `m`.
unfoldable pub parse_integer : Bytes → ℕ → ℕ → Parser ℕ
parse_integer input limit m = do
  expect input limit 0x02
  len ← parse_length input limit
  require_room limit len
  read_integer input m len 0

unfoldable pub parse_variable_binding : Bytes → ℕ → Parser VariableBinding
parse_variable_binding input len = do
  start_offset ← here
  let limit = add_size start_offset len
  expect input limit 0x06
  oid_length ← parse_length input limit
  require_room limit oid_length
  oid ← copy input oid_length
  require_more limit
  value_type ← next input
  value_length ← parse_length input limit
  require_room limit value_length
  value ← copy input value_length
  pure (record { oid = oid; value_type = value_type; value = value })

-- One round of the loop of `parse_variable_bindings`.
unfoldable pub parse_round : Bytes → ℕ → Parser (Unit {0})
parse_round input limit = do
  expect input limit 0x30
  varbind_length ← parse_length input limit
  require_room limit varbind_length
  varbind ← parse_variable_binding input varbind_length
  update (add_variable_binding varbind)

-- `while (offset < start_offset + length)`; the limit is that sum.
unfoldable pub bindings_loop : ℕ → Bytes → ℕ → Parser (Unit {0})
bindings_loop zero input limit c = if ltb c.offset limit then stuck else ok tt c
bindings_loop (suc fuel) input limit c =
    let rest = bind_outcome (parse_round input limit c) (λ _. bindings_loop fuel input limit) in
    if ltb c.offset limit then rest else ok tt c

-- A round takes a byte at least, so `length input` rounds are enough.
unfoldable pub parse_variable_bindings : Bytes → ℕ → Parser (Unit {0})
parse_variable_bindings input len = do
  start_offset ← here
  update clear_variable_bindings
  bindings_loop (length input) input (add_size start_offset len)

unfoldable pub parse_pdu_fields : Bytes → ℕ → Parser (Unit {0})
parse_pdu_fields input len = do
  start_offset ← here
  let limit = add_size start_offset len
  request_id ← parse_integer input limit 4294967296
  update (set_request_id request_id)
  error_status ← parse_integer input limit 256
  update (set_error_status error_status)
  error_index ← parse_integer input limit 256
  update (set_error_index error_index)
  expect input limit 0x30
  varbinds_length ← parse_length input limit
  require_room limit varbinds_length
  parse_variable_bindings input varbinds_length

-- The header: the sequence, its length and the version.
unfoldable pub parse_version : Bytes → Parser (Unit {0})
parse_version input = do
  let limit = length input
  expect input limit 0x30
  packet_length ← parse_length input limit
  offset ← here
  require (packet_length == (limit + size_mod - offset) % size_mod)
  expect input limit 0x02
  version_length ← parse_length input limit
  require_room limit version_length
  require (version_length == 1)
  version ← next input
  update (set_version version)

unfoldable pub parse_community : Bytes → Parser (Unit {0})
parse_community input = do
  let limit = length input
  expect input limit 0x04
  community_length ← parse_length input limit
  require_room limit community_length
  community ← copy input community_length
  update (set_community community)

unfoldable pub parse_pdu : Bytes → Parser (Unit {0})
parse_pdu input = do
  let limit = length input
  require_more limit
  pdu_type ← next input
  update (set_pdu_type pdu_type)
  pdu_length ← parse_length input limit
  require_room limit pdu_length
  parse_pdu_fields input pdu_length

-- `SNMPPacket::parse` on the fields that the packet holds before.
unfoldable pub parse : Bytes → SnmpPacket → Outcome (Unit {0})
parse input p =
    (require (not (length input == 0))
        >> parse_version input
        >> parse_community input
        >> parse_pdu input)
      (record { offset = 0; packet = p })
