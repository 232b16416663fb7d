-- ===== src/Tests.antt =====
-- Concrete runs of the models, and the theorems at concrete inputs.
mod Snmp
mod Policy
mod Host
mod Cycle
mod Conf
mod Routes
mod Netutil
mod Limits
