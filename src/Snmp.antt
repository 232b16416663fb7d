-- ===== src/Snmp.antt =====
-- internal/snmp: the SNMPv2c agent. Object identifiers, BER, the MIB, messages and the handler.
pub mod Oid
pub mod Ber
pub mod Pdu
pub mod Mib
pub mod Agent
