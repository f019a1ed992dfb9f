-- ===== src/Twitter.antt =====
-- twitter.hpp and twitter.cc: users and tweets, their stores, and how JSON objects become them.
pub mod Types
pub mod UserStore
pub mod TweetStore
pub mod Build
