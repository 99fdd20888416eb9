-- ===== src/Libc.antt =====
-- What the programs use of the C library: strings in buffers, `strtok`, `atoi` and `sprintf` of
-- numbers. A C string is the list of its bytes without the NUL; a buffer is the list of all its bytes.
pub mod Strings
pub mod Tokens
pub mod Numbers
