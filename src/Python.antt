-- ===== src/Python.antt =====
-- What the program uses of Python's own types: str.strip, UTF-8, and integers as bytes.
pub mod Strip
pub mod JsonText
pub mod Json
pub mod Digits
pub mod Codes
pub mod Utf8
pub mod IntBytes
