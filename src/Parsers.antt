-- ===== src/Parsers.antt =====
-- libIWeb/ILibParsers.c: text parsing, packets, containers and timers.
pub mod HashTree
pub mod Base64
pub mod LifeTime
pub mod Numbers
pub mod Packets
pub mod Queue
pub mod Xml
pub mod XmlEscape
pub mod Split
pub mod Tests
