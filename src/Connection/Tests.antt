-- ===== src/Connection/Tests.antt =====
-- Connections at concrete calls.
use simple_snmpd.Base.{◌≡◌, refl, true, false, some, List, [], ◌∷◌, arith}
use simple_snmpd.Base.Text.{chars}
use simple_snmpd.Packet.{new_packet}
use simple_snmpd.Connection.{
  Connection, new_connection, peer_closed, receive_request, close, set_non_blocking, set_timeout,
}
use simple_snmpd.Connection.Lifetime.{Call, receiving, closing, step, run, Keeps, run-Keeps}

abbrev client : Connection
client = record {
  socket_fd = some 7;
  client_address = chars "127.0.0.1";
  client_port = 161;
  connected = true;
  last_activity = 5;
}

client_made : new_connection (some 7) (chars "127.0.0.1") 161 5 ≡ client
unfolding new_connection
client_made = refl

-- The flag is set and taken away.
flag_set : set_non_blocking client true (some 2) ≡ some 2050
unfolding set_non_blocking
flag_set = refl

flag_cleared : set_non_blocking client false (some 2050) ≡ some 2
unfolding set_non_blocking
flag_cleared = refl

send_timeout_refused : set_timeout client true false ≡ false
unfolding set_timeout
send_timeout_refused = refl

-- A peer that closes leaves the descriptor open, until `close`; the second `close` has none left.
abbrev calls : List Call
calls = receiving new_packet peer_closed 9 ∷ closing ∷ closing ∷ []

calls-run : run client calls ≡ some ((close client).0, 7 ∷ [])
unfolding run step receive_request close
calls-run = refl

run-Keeps_example : Keeps client (run client calls)
run-Keeps_example = run-Keeps calls client ((omega arith, tt), (tt, (tt, tt)))
