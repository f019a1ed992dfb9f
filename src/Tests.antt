-- ===== src/Tests.antt =====
-- The theorems at concrete inputs, and runs of the definitions.
mod Data
mod Answers
mod Auth
mod Client
mod Console
mod Conversion
mod Devices
mod Json
mod OAuth
mod Peg
mod Reads
mod Recursive
mod Rules
mod Shell
mod Sockets
mod Stream
mod Termios
mod Twitter
mod Util
