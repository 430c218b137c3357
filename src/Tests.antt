-- ===== src/Tests.antt =====
-- The theorems at concrete inputs, and runs of the definitions.
mod Data
mod Proxy
mod Subcache
mod Templates
mod Rewrite
mod Panel
mod RealIp
mod Hosts
mod Pipeline
mod Config
mod Client
