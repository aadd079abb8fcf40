-- ===== src/Text.antt =====
-- The string utilities of src/core/utils.cpp. A `std::string` is the list of its bytes.
pub mod Trim
pub mod Split
pub mod Path
pub mod Space
pub mod Utf8
pub mod Html
pub mod Find
