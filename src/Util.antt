-- ===== src/Util.antt =====
-- util.hpp: the text helpers of the program. A `char` is its byte, 0 to 255.
pub mod Hex
pub mod Escape
pub mod Base64
pub mod Received
