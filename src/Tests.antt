-- ===== src/Tests.antt =====
-- A simulated library, and runs of the wrapper and of the proxy with it.
mod Simulation
mod Messages
mod Identities
mod Starts
mod Methods
mod Connections
mod Servers
mod Turns
mod Ciphers
mod Programs
mod Chats
