-- ===== src/Server/Tests.antt =====
-- The request handling with small managers, and the theorems at concrete requests.
use mathlib.Core.List.Perm
use simple_snmpd.Base.{
  ℕ, ◌+◌, ◌≡◌, ◌≤◌, refl, true, not, none, some, List, [], ◌∷◌, Bytes, length, All, IsByte, ltb,
  leb, ◌==◌, if◌then◌else◌, arith,
}
use simple_snmpd.Packet.{SnmpPacket, VariableBinding, new_packet}
use simple_snmpd.Packet.Pdu
use simple_snmpd.Packet.Serialize.{serialize}
use simple_snmpd.Packet.Cursor.Steps.{horner}
use simple_snmpd.Mib.{MibManager, from_u32}
use simple_snmpd.Mib.Values.{from_u32-horner}
use simple_snmpd.Security.{SecurityManager}
use simple_snmpd.Server.{null_binding}
use simple_snmpd.Server.Read.{
  get_one, get_loop, process_get_request, process_get_next_request, process_get_bulk_request,
}
use simple_snmpd.Server.Read.Answers.{process_get_request_lem, process_get_next_request_lem}
use simple_snmpd.Server.Read.Reordered.{Reorders, reads-Reorders}
use simple_snmpd.Server.Write.{write_one, set_one, set_loop, process_set_request}
use simple_snmpd.Server.Write.Permits.{
  Survives, Reports, process_set_request-Survives, process_set_request-Reports,
}
use simple_snmpd.Server.Process.{
  Client, Managers, Event, failed, empty, received, process_snmp_request, server_loop,
}
use simple_snmpd.Server.Process.Header.{reply_echoes}
use simple_snmpd.Server.Process.Replies.{Returns, server_loop-Returns}

abbrev head_or : ℕ → Bytes → ℕ
head_or d [] = d
head_or d (b ∷ bs) = b

-- Two objects, a scalar named 1 and a cell named 2; the state counts the writes.
abbrev pub objects : MibManager
objects = record {
  State = ℕ;
  get_value =
      λ m oid. if leb (head_or 9 oid) 2 then some (record { type = 2; octets = m ∷ [] }) else none;
  set_value = λ m oid v. (true, m + 1);
  get_next_oid = λ m oid. if head_or 0 oid == 1 then some (2 ∷ []) else none;
  is_scalar = λ m oid. head_or 9 oid == 1;
  oid_to_string = λ oid. oid;
}

-- One hundred requests pass; a community is needed, and "w" may write.
abbrev pub rules : SecurityManager
rules = record {
  State = ℕ;
  check_rate_limit = λ s now ip. (ltb s 100, s + 1);
  is_ip_allowed = λ s ip. true;
  is_access_allowed = λ s community ip. not (length community == 0);
  is_write_allowed = λ s community. head_or 0 community == b'w';
  is_oid_allowed = λ s community oid. true;
}

abbrev binding : ℕ → Bytes → VariableBinding
binding b value = record { oid = b ∷ []; value_type = 4; value = value }

abbrev request : ℕ → List VariableBinding → SnmpPacket
request t vs = record new_packet { pdu_type = t; community = b'w' ∷ []; variable_bindings = vs }

-- The first of three objects is missing, and the index is 3.
get_missing :
    process_get_request objects 7
      (request Pdu.get_request (binding 5 [] ∷ binding 1 [] ∷ binding 2 [] ∷ []))
      new_packet
    ≡ record new_packet {
      pdu_type = Pdu.get_response;
      error_status = 2;
      error_index = 3;
      variable_bindings =
          null_binding (5 ∷ [])
          ∷ record { oid = 1 ∷ []; value_type = 2; value = 7 ∷ [] }
          ∷ record { oid = 2 ∷ []; value_type = 2; value = 7 ∷ [] }
          ∷ [];
    }
unfolding process_get_request get_loop get_one
get_missing = refl

set_cell :
    process_set_request objects rules 0
      (request Pdu.set_request (binding 2 (8 ∷ []) ∷ []))
      (new_packet, 7)
    ≡ (
      record new_packet {
        pdu_type = Pdu.get_response;
        variable_bindings = binding 2 (8 ∷ []) ∷ [];
      },
      8,
    )
unfolding process_set_request set_loop set_one write_one
set_cell = refl

abbrev pub three_objects : SnmpPacket
three_objects = request Pdu.get_request (binding 5 [] ∷ binding 1 [] ∷ binding 2 [] ∷ [])

process_get_request_lem_example :
    process_get_request objects 7 three_objects new_packet ≡ record new_packet {
      pdu_type = Pdu.get_response;
      error_status = 2;
      error_index = 3;
      variable_bindings =
          null_binding (5 ∷ [])
          ∷ record { oid = 1 ∷ []; value_type = 2; value = 7 ∷ [] }
          ∷ record { oid = 2 ∷ []; value_type = 2; value = 7 ∷ [] }
          ∷ [];
    }
process_get_request_lem_example = process_get_request_lem objects 7 three_objects new_packet

process_get_next_request_lem_example :
    process_get_next_request objects 7
      (request Pdu.get_next_request (binding 1 [] ∷ binding 2 [] ∷ []))
      new_packet
    ≡ record new_packet {
      pdu_type = Pdu.get_response;
      variable_bindings =
          record { oid = 2 ∷ []; value_type = 2; value = 7 ∷ [] } ∷ null_binding (2 ∷ []) ∷ [];
    }
process_get_next_request_lem_example =
    process_get_next_request_lem objects 7
      (request Pdu.get_next_request (binding 1 [] ∷ binding 2 [] ∷ [])) new_packet

-- The same objects, the first two the other way round.
abbrev other_way : SnmpPacket
other_way = request Pdu.get_request (binding 1 [] ∷ binding 5 [] ∷ binding 2 [] ∷ [])

reads-Reorders_example :
    Reorders
      (process_get_request objects 7 three_objects new_packet)
      (process_get_request objects 7 other_way new_packet)
    × Reorders
        (process_get_next_request objects 7 three_objects new_packet)
        (process_get_next_request objects 7 other_way new_packet)
    × Reorders
        (process_get_bulk_request objects 7 three_objects new_packet)
        (process_get_bulk_request objects 7 other_way new_packet)
reads-Reorders_example =
    reads-Reorders objects 7 three_objects other_way new_packet (Perm.swap _ _ _, refl)

abbrev two_writes : SnmpPacket
two_writes = request Pdu.set_request (binding 2 (8 ∷ []) ∷ binding 1 (9 ∷ []) ∷ [])

counts_up : Survives objects rules 0 (b'w' ∷ []) (λ m. 7 ≤ m)
counts_up = record { write = λ m v old a b c h. omega arith }

process_set_request-Survives_example :
    7 ≤ (process_set_request objects rules 0 two_writes (new_packet, 7)).1
process_set_request-Survives_example =
    process_set_request-Survives objects rules 0 two_writes new_packet 7 (λ m. 7 ≤ m)
      (λ _. counts_up) (omega arith)

process_set_request-Reports_example :
    Reports objects rules two_writes.variable_bindings new_packet
      (process_set_request objects rules 0 two_writes (new_packet, 7)).0
process_set_request-Reports_example =
    process_set_request-Reports objects rules 0 two_writes new_packet 7 refl

abbrev pub here : Client
here = record { address = b'h' ∷ []; port = 4000 }

abbrev pub managers : Managers objects rules
managers = record { access = 0; objects = 7 }

-- Without a community.
abbrev anonymous : SnmpPacket
anonymous = record three_objects { community = [] }

reply_echoes_example :
    (response : SnmpPacket) × ((process_snmp_request objects rules managers here 0 three_objects).1
      ≡ record { client = here; datagram = serialize response } ∷ [])
    × (response.version ≡ 1)
    × (response.community ≡ b'w' ∷ [])
    × (response.request_id ≡ 0)
    × (response.pdu_type ≡ Pdu.get_response)
reply_echoes_example = reply_echoes objects rules managers here 0 three_objects refl

-- A failed call, a datagram that is no packet, and an empty one.
abbrev traffic : List Event
traffic = failed ∷ received (0x30 ∷ 0x05 ∷ []) here 1 ∷ empty ∷ []

server_loop-Returns_example : Returns objects rules 1 (server_loop objects rules managers traffic)
server_loop-Returns_example = server_loop-Returns objects rules traffic managers (omega arith)

from_u32-horner_example :
    (horner 4294967296 0 (from_u32 0x41 300).octets ≡ 300) × All IsByte (from_u32 0x41 300).octets
from_u32-horner_example = from_u32-horner 0x41 300 (omega arith)
