-- ===== src/MyString.antt =====
-- MyString.c: searching in texts, and conversions between UTF-8, ANSI and wide characters.
pub mod Libc
pub mod Affix
pub mod Decode
pub mod Encode
pub mod Search
pub mod Tests
