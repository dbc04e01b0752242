-- ===== src/Server/Process/Tests.antt =====
-- An exchange with a manager of one-byte values.
use simple_snmpd.Base.{
  ℕ, ◌+◌, ◌≤◌, ◌≡◌, ◌⊎◌, refl, true, false, subst, take, some, [], ◌∷◌, Bytes, length, All, IsByte,
  u8, arith,
}
use simple_snmpd.Packet.{SnmpPacket, new_packet}
use simple_snmpd.Packet.Cursor.{ok}
use simple_snmpd.Packet.Parse.{parse}
use simple_snmpd.Packet.Parse.RoundTrip.{serialize-Message}
use simple_snmpd.Packet.Serialize.{
  fill_length, serialize_binding, serialize_variable_bindings, serialize_pdu_fields, serialize,
}
use simple_snmpd.Mib.{MibManager, MibValue}
use simple_snmpd.Server.Read.{get_one, get_loop, process_get_request}
use simple_snmpd.Server.Tests.{objects, rules, here, three_objects}
use simple_snmpd.Server.Process.{received, Managers, dispatch, process_snmp_request, server_round}
use simple_snmpd.Server.Process.Typed.{IsTyped}
use simple_snmpd.Server.Process.Bounded.{count, dispatch-count}
use simple_snmpd.Server.Process.Decided.{Means, Meaningless, server_round_lem}
use simple_snmpd.Server.Process.Exchange.{reply, exchange}

-- Each object has the low byte of the state as its value, and there is one name.
abbrev bytes : MibManager
bytes = record objects {
  State = ℕ;
  get_value = λ m oid. some (record { type = 2; octets = u8 m ∷ [] });
  set_value = λ m oid v. (true, m + 1);
  get_next_oid = λ m oid. some (2 ∷ []);
  is_scalar = λ m oid. false;
}

some_octets :
    (m : ℕ) (v : MibValue)
    → some (record { type = 2; octets = u8 m ∷ [] }) ≡ some v
    → All IsByte v.octets
some_octets m v e =
    let one : record { type = 2; octets = u8 m ∷ [] } ≡ v = cc in
    subst (λ (w : MibValue). All IsByte w.octets) one (omega arith)

some_name : (next : Bytes) → some (2 ∷ []) ≡ some next → All IsByte next
some_name next e = let one : 2 ∷ [] ≡ next = cc in subst (All IsByte) one (omega arith)

bytes-IsTyped : IsTyped bytes
bytes-IsTyped = record {
  value_bytes = λ m oid v e. some_octets m v e;
  name_bytes = λ m oid next e. some_name next e;
}

abbrev state : Managers bytes rules
state = record { access = 0; objects = 7 }

dispatch-count_example : count (dispatch bytes rules 0 three_objects (new_packet, 7)).0 ≤ 0 + 3
dispatch-count_example = dispatch-count bytes rules 0 three_objects new_packet 7

abbrev answer : SnmpPacket
answer = (reply bytes rules state here 0 three_objects).0

exchange_example :
    (server_round bytes rules state (received (serialize three_objects) here 0)
      ≡ some (
        record { access = 1; objects = 7 },
        record { client = here; datagram = serialize answer } ∷ [],
      ))
    × (parse (serialize answer) new_packet
        ≡ ok tt (record { offset = length (serialize answer); packet = answer }))
unfolding serialize serialize_pdu_fields serialize_variable_bindings serialize_binding fill_length
    dispatch process_get_request get_loop get_one
exchange_example =
    exchange bytes rules state here 0 three_objects new_packet (serialize three_objects)
      bytes-IsTyped (omega arith) (serialize-Message three_objects (omega arith) (omega arith))
      (omega arith) refl (omega arith)

server_round_lem_example :
    ((request : SnmpPacket) × Means (take 4096 (serialize three_objects)) request
      × (server_round bytes rules state (received (serialize three_objects) here 0)
          ≡ some (process_snmp_request bytes rules state here 0 request)))
    ⊎ (Meaningless (take 4096 (serialize three_objects))
        × (server_round bytes rules state (received (serialize three_objects) here 0)
            ≡ some (state, [])))
unfolding serialize serialize_pdu_fields serialize_variable_bindings serialize_binding fill_length
server_round_lem_example =
    server_round_lem bytes rules state (serialize three_objects) here 0 (omega arith)
