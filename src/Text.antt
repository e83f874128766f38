-- ===== src/Text.antt =====
-- What the program uses of the standard library's text functions: std::to_string, std::stoull, and
-- the formatted input of an istringstream in the C locale.
pub mod Number
pub mod Scan
pub mod Stream
pub mod Print
pub mod Read
