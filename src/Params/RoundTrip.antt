-- ===== src/Params/RoundTrip.antt =====
-- Protocol names, printed and parsed back (src/params/mod.rs and src/params/patterns.rs). The
-- printers are the grammar of the names, written down here: the crate has only the parsers.
pub mod Numbers
pub mod Split
pub mod Prefix
pub mod Choice
pub mod Name
