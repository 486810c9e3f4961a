-- ===== src/Tests.antt =====
-- Runs of the definitions on concrete inputs, and the theorems applied to them.
mod Maps
mod Sums
mod Frames
mod Headers
mod Opts
mod Sockets
mod Stamps
mod Times
mod Sniffing
mod Live
mod Wires
mod Tunnels
mod Addresses
mod Labels
mod Scripts
mod Calls
mod Threads
mod Datagrams
mod Segments
mod IcmpMessages
