-- ===== src/Tests.antt =====
-- The theorems at concrete inputs.
mod Names
mod Requests
mod Filters
mod Access
mod Merkle
mod Tokens
mod ContentKeys
mod Tables
mod Caches
mod Proxies
mod Servers
mod Directory
mod Contracts
