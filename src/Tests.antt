-- ===== src/Tests.antt =====
-- Tests on concrete inputs: the parsers and the operations of proxybatcher/, and one example of each
-- theorem that has conditions.
mod Options
mod Endpoint
mod Lease
mod Batch
mod Proxy
mod Server
mod Start
mod System
mod ProxySystem
mod Configurator
mod Tables
mod Logging
