-- ===== src/Answers.antt =====
-- http_client_inst.cc: what is read of a connection.
pub mod Grammar
pub mod Reader
