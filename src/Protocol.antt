-- ===== src/Protocol.antt =====
-- cpp/negentropy.h, the class `Negentropy`: its encodings (Wire), the splitting of a range (Split),
-- one turn of the message loop (Turn), and the public operations (Session).
pub mod Wire
pub mod Split
pub mod Turn
pub mod Session
