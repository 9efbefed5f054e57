-- ===== src/Tests.antt =====
-- Runs of the definitions at concrete inputs, and the theorems applied to such inputs.
mod Data
mod Memory
mod Service
mod Store
mod Protocol
mod Gateway
mod Trace
mod Saytts
mod Session
mod Language
mod Wsconn
mod Control
mod Speech
mod Voicews
mod Conversation
mod Frames
