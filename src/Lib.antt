-- ===== src/Lib.antt =====
-- Simple SNMP Daemon: an SNMP agent in C++ (v1, v2c and the numbering of v3) that answers requests
-- on a UDP socket. This library models the program as functions on its states and proves what makes
-- its parts correct.
--
-- The parts. `main` (src/main.cpp) reads the command line, loads the configuration
-- (src/core/snmp_config.cpp), and makes, initializes, starts and stops the server
-- (src/core/snmp_server.cpp). The server's thread receives datagrams, has each parsed by the packet
-- codec (src/core/snmp_packet.cpp), checks the sender against the security manager, has a handler
-- fill in a response from the objects of the MIB manager, and sends the serialized response. A
-- connection (src/core/snmp_connection.cpp) is the same exchange over one connected socket.
--
-- Which file models which part:
--   Base        helpers: tests on numbers, lists under the library's names, the masks and shifts of
--               the wire format (Base/Bits), texts as lists of bytes (Base/Text).
--   Packet      include/simple_snmpd/snmp_packet.hpp: the packet, its setters, the numbers of PDU
--               types (Packet/Pdu) and errors (Packet/Error).
--     Packet/Ber        the messages of SNMP in BER, as the standard has them: what `parse` is
--                       measured against, and no part of the code. Packet/Ber/Loose: those too
--                       whose declared lengths of a binding or of the PDU are too large.
--     Packet/Cursor     the state of `SNMPPacket::parse` (offset and packet) and its steps: read a
--                       byte, expect a tag, check the room, copy. A step ends in `ok` (true),
--                       `reject` (false), `fault` (a read outside the datagram) or `stuck` (a loop
--                       out of fuel); the last two are no C++ values.
--     Packet/Parse      `SNMPPacket::parse` and its helpers, under their names. Packet/Parse/Reads
--                       says what each of them has read when it returns true.
--     Packet/Serialize  `SNMPPacket::serialize` and its helpers.
--   Mib         include/simple_snmpd/snmp_mib.hpp: `MIBValue` and its constructors, and the
--               interface of the MIB manager (`MibManager`); its entries (Mib/Entries).
--   Security    include/simple_snmpd/snmp_security.hpp: the interface of the security manager
--               (`SecurityManager`); its entries (Security/Entries).
--   Server      src/core/snmp_server.cpp: the handlers of GET, GET-NEXT, GET-BULK (Server/Read) and
--               SET (Server/Write); the checks, the dispatch, the answer and the receive loop
--               (Server/Process); `initialize`, `start` and `stop` (Server/Lifecycle); the threads
--               of a running server as a step relation (Server/Threads).
--   Connection  src/core/snmp_connection.cpp, every operation.
--   Config      src/core/snmp_config.cpp: the settings, `parse_config_value` and `load`; `std::stoi`
--               is Config/Number.
--   Daemon      src/main.cpp: the loop over the arguments, and `main`; the handlers of signals
--               (Daemon/Signals) and the waiting loop.
--   Platform    src/core/platform.cpp: names and interfaces, and the uptime, the processors and the
--               memory (Platform/Resources).
--   Logger      src/core/logger.cpp: the levels, the line of an entry, the streams; the logger shared
--               by threads (Logger/Threads).
--   ErrorHandler  src/core/error_handler.cpp: the counters and what is logged.
--   Service     deployment/windows/simple-snmpd-service.cpp: the status and the two threads; how the
--               daemon is started, and `wmain` (Service/Launch).
--   V3          include/simple_snmpd/snmp_v3_packet.hpp: the byte of the message flags; the message
--               (V3/Message), and the values of snmp_v3_usm.hpp (V3/Usm) and snmp_v3_vacm.hpp
--               (V3/Vacm) beside it.
--   Pool, Health, Metrics  include/simple_snmpd/thread_pool.hpp, memory_pool.hpp (Pool/Memory),
--               health_check.hpp and prometheus_metrics.hpp: the values.
-- A child module is named for what it proves of its parent; the modules called Tests hold runs on
-- concrete inputs and each theorem at one of them.
--
-- How the code is carried over. Numbers are natural numbers with the wrap-around of the C++ type
-- written out: 8, 16 and 32 bits, and 64 for `size_t`. `std::vector<uint8_t>` and `std::string` are
-- lists of bytes. Code that changes an object returns the new one. What a system call returns is an
-- argument of the operation that calls it: the events of `recvfrom`, the results of `send`, `recv`,
-- `bind`. Descriptors that an operation hands to `close` are part of its result. The POSIX build is
-- modelled, and of src/core/platform.cpp every system that it is compiled for.
--
-- Parameters. src/core/snmp_mib.cpp and src/core/snmp_security.cpp are not in the repository, only
-- their headers are. What the server calls of the two managers is a record of functions on a state
-- of any type, without laws: what is stated of the server is stated for every such manager, or under
-- the law that the entry names (values and names of bytes). As functions they
-- return, and the server's calls change a manager only where the record says so, by
-- `set_value` and by `check_rate_limit`, which is given the time.
--
-- Bounds and fuel. The loop over variable bindings has the length of the datagram as fuel: a round
-- takes a byte at least, so that is enough. What is stated of `parse` is stated of datagrams shorter
-- than 2^63 bytes, where an offset plus a 32-bit length does not wrap; the server's are of 4096
-- bytes at most. The round trips are stated up to 129 bytes, as far as one byte of length reaches.
--
-- Threads. The loop of the server, its workers and one caller of `stop` move in any order; a step of
-- a thread is what it does up to its next access to `running_` or `server_socket_`, its next system
-- call or its next join. A round of the loop behind `recvfrom` is one step, since nothing that it
-- touches is touched by the other threads, and its `sendto` is another. Accesses happen one after the
-- other, although the two fields are neither atomic nor locked. `recvfrom` may return anything at any
-- time, or never: a close of the descriptor need not wake it (Server/Threads/Waiting). The two threads
-- and the control handler of the Windows service interleave by steps from wait to wait. A signal comes
-- during a sleep of the waiting loop of `main`, not before or behind the loop, and its handler runs on
-- the thread of `main`; in Server/Threads/Handler it runs on the thread of the loop of the server.
-- Which signals end the program by default is a parameter.
--
-- The logger is shared in the same way (Logger/Threads): any number of threads call `log` and
-- `set_level`, and move in the order of a schedule, by steps up to the mutex, the console, the file.
--
-- Not modelled: the log lines of the other parts and what they print, exceptions other than those of
-- `std::stoi`, running out of memory, the event log of the Windows service, and the operations whose
-- bodies are not in the repository: of the MIB manager and the security manager (parameters, above),
-- the thread pool, the memory pools, the metrics, the health checks, the SNMPv3 message, USM and VACM.
-- Of these the values, their constructors and the setters with a body are there, and nothing in the
-- repository calls them.
pub mod Base
pub mod Packet
pub mod Mib
pub mod Security
pub mod Server
pub mod Connection
pub mod Config
pub mod Daemon
pub mod Logger
pub mod ErrorHandler
pub mod V3
pub mod Service
pub mod Platform
pub mod Pool
pub mod Health
pub mod Metrics
