-- ===== src/Std.antt =====
-- What the program uses of Rust's standard library on text: a `str` or `String` is the list of its
-- bytes, in UTF-8.
pub mod Utf8
pub mod Str
