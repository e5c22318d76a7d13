-- ===== src/Tests.antt =====
-- Runs of the program's functions on concrete input, and the theorems at concrete arguments.
mod Sequences
mod Descriptions
mod Listeners
mod Packets
mod Reports
mod Calls
mod Sessions
mod Streams
mod Registrations
mod Calling
mod Answers
mod Dialling
mod Sockets
mod Echoing
mod Logging
mod Starts
mod Talking
mod Answering
