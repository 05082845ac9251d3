-- ===== src/Contacts/Convolution/Tables.antt =====
-- The terms of the unrolled routines.
pub mod Three
pub mod FiveFirst
pub mod FiveSecond
pub mod FiveMiddle
pub mod FiveNextLast
pub mod FiveLast
