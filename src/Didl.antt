-- ===== src/Didl.antt =====
-- CdsObjectToDidl.c: media objects printed as DIDL-Lite.
pub mod Escape
pub mod Filter
pub mod Object
pub mod Count
pub mod Print
pub mod Totals
pub mod Resources
pub mod Plain
pub mod Overrun
pub mod Tests
