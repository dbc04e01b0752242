-- ===== src/V3/Message.antt =====
-- The SNMPv3 message and the state of its processor (include/simple_snmpd/snmp_v3_packet.hpp). The
-- bodies of their constructors are not in the repository, the setters are.
use simple_snmpd.Base.{ℕ, [], Bytes}
use simple_snmpd.Packet.{SnmpPacket, new_packet}
use simple_snmpd.V3.{MessageFlags}
use simple_snmpd.V3.Usm.{SecurityParameters}

pub data MessageProcessingModel : Type 0 where
  v3 : MessageProcessingModel

abbrev pub processing_model_code : MessageProcessingModel → ℕ
processing_model_code v3 = 3

pub data SecurityModel : Type 0 where
  usm : SecurityModel

abbrev pub security_model_code : SecurityModel → ℕ
security_model_code usm = 3

pub record ScopedPdu : Type 0 where
  pub context_engine_id : Bytes
  pub context_name : Bytes
  pub pdu : SnmpPacket

-- `SNMPv3ScopedPDU()`
abbrev pub new_scoped_pdu : ScopedPdu
new_scoped_pdu = record { context_engine_id = []; context_name = []; pdu = new_packet }

pub record V3Packet : Type 0 where
  pub message_id : ℕ  -- uint32_t
  pub max_size : ℕ  -- uint32_t
  pub message_flags : MessageFlags
  pub security_model : SecurityModel
  pub security_params : SecurityParameters
  pub scoped_pdu : ScopedPdu
  pub error_message : Bytes

abbrev pub set_message_id : ℕ → V3Packet → V3Packet
set_message_id message_id p = record p { message_id = message_id }

abbrev pub set_max_size : ℕ → V3Packet → V3Packet
set_max_size max_size p = record p { max_size = max_size }

abbrev pub set_message_flags : MessageFlags → V3Packet → V3Packet
set_message_flags flags p = record p { message_flags = flags }

abbrev pub set_security_model : SecurityModel → V3Packet → V3Packet
set_security_model model p = record p { security_model = model }

abbrev pub set_security_parameters : SecurityParameters → V3Packet → V3Packet
set_security_parameters params p = record p { security_params = params }

abbrev pub set_scoped_pdu : ScopedPdu → V3Packet → V3Packet
set_scoped_pdu scoped_pdu p = record p { scoped_pdu = scoped_pdu }

-- All of `uint64_t`.
pub record ProcessorStatistics : Type 0 where
  pub messages_processed : ℕ
  pub messages_authenticated : ℕ
  pub messages_encrypted : ℕ
  pub messages_decrypted : ℕ
  pub access_checks : ℕ
  pub access_allowed : ℕ
  pub access_denied : ℕ
  pub parse_errors : ℕ
  pub security_errors : ℕ

abbrev pub no_processor_statistics : ProcessorStatistics
no_processor_statistics = record {
  messages_processed = 0;
  messages_authenticated = 0;
  messages_encrypted = 0;
  messages_decrypted = 0;
  access_checks = 0;
  access_allowed = 0;
  access_denied = 0;
  parse_errors = 0;
  security_errors = 0;
}

-- The members of `SNMPv3MessageProcessor` but for its mutex.
pub record MessageProcessor : Type 0 where
  pub max_message_size : ℕ  -- uint32_t
  pub statistics : ProcessorStatistics

abbrev pub set_max_message_size : ℕ → MessageProcessor → MessageProcessor
set_max_message_size size p = record p { max_message_size = size }
