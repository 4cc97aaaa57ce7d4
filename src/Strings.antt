-- ===== src/Strings.antt =====
-- Go's package strings, and strconv.ParseInt, as far as the program uses them, on lists of bytes.
pub mod Split
pub mod Numbers
