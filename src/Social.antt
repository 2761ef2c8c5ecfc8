-- ===== src/Social.antt =====
-- src/tessera/handlers_social.py: votes, favourites and reports. A body comes as what
-- json.loads made of it.
pub mod Request
pub mod Voting
pub mod Favouriting
pub mod Reporting
