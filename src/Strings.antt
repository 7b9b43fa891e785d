-- ===== src/Strings.antt =====
-- The operations of std::string that the program uses, and the string helpers of src/utils.cc.
-- A string is the list of its bytes.
pub mod Find
pub mod Split
pub mod Search
pub mod Escape
pub mod Literal
pub mod CString
pub mod Paths
pub mod Lookup
