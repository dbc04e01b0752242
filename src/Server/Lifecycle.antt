-- ===== src/Server/Lifecycle.antt =====
-- `initialize`, `start` and `stop` of `SNMPServer`, with the descriptors that they hand to `close`.
pub mod Descriptors
use simple_snmpd.Base.{
  ℕ, ◌+◌, Bool, true, false, Option, none, some, List, [], ◌∷◌, ◌++◌, if◌then◌else◌,
}
use simple_snmpd.Connection
use simple_snmpd.Config.{SnmpConfig}

-- `none` is the descriptor -1. A thread that can be joined is `true`; the vector of the workers is
-- their number.
pub record SnmpServer : Type 0 where
  pub config : SnmpConfig
  pub server_socket : Option ℕ
  pub running : Bool
  pub server_thread : Bool
  pub worker_threads : ℕ
  pub connections : List Connection.Connection

-- Of the constructor, less the managers that it starts.
abbrev pub new_server : SnmpConfig → SnmpServer
new_server config = record {
  config = config;
  server_socket = none;
  running = false;
  server_thread = false;
  worker_threads = 0;
  connections = [];
}

-- How far the system calls of `initialize` get, with the descriptor of the socket.
pub data Opening : Type 0 where
  socket_failed : Opening
  option_failed bind_failed bound : ℕ → Opening

pub record Result : Type 0 where
  pub done : Bool
  pub server : SnmpServer
  pub closed : List ℕ

-- A failure behind `socket` closes the descriptor and keeps its number.
unfoldable pub initialize : SnmpServer → Opening → Result
initialize s socket_failed = record {
  done = false;
  server = record s { server_socket = none };
  closed = [];
}
initialize s (option_failed fd) = record {
  done = false;
  server = record s { server_socket = some fd };
  closed = fd ∷ [];
}
initialize s (bind_failed fd) = record {
  done = false;
  server = record s { server_socket = some fd };
  closed = fd ∷ [];
}
initialize s (bound fd) = record {
  done = true;
  server = record s { server_socket = some fd };
  closed = [];
}

abbrev pub thread_pool_size : ℕ
thread_pool_size = 4

-- Assigning to a thread that can still be joined ends the program: `none`.
abbrev launch : SnmpServer → Option Result
launch s =
    if s.server_thread
    then none
    else some (record {
      done = true;
      server = record s {
        running = true;
        server_thread = true;
        worker_threads = s.worker_threads + thread_pool_size;
      };
      closed = [];
    })

unfoldable pub start : SnmpServer → Option Result
start s = if s.running then some (record { done = true; server = s; closed = [] }) else launch s

abbrev pub as_list : Option ℕ → List ℕ
as_list none = []
as_list (some fd) = fd ∷ []

-- What closing each connection hands to `::close`.
unfoldable pub close_all : List Connection.Connection → List ℕ
close_all [] = []
close_all (c ∷ cs) = (Connection.close c).1 ++ close_all cs

-- The joins are taken to return; Server/Threads is about the threads that they wait for.
unfoldable pub stop : SnmpServer → Result
stop s =
    if s.running
    then record {
      done = true;
      server = record s {
        server_socket = none;
        running = false;
        server_thread = false;
        worker_threads = 0;
        connections = [];
      };
      closed = as_list s.server_socket ++ close_all s.connections;
    }
    else record { done = true; server = s; closed = [] }
