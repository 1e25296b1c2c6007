-- ===== src/Api.antt =====
-- crates/ferric-api/src/lib.rs: the data types shared by the safe logic and the hardware layer.
-- A `char` is its code point and a byte is a number below 256, both plain numbers.
pub mod Keys
pub mod Memory
