-- ===== src/Media.antt =====
-- MimeTypes.c, CdsMediaClass.h and CdsMediaClass.c: what kinds of media the server offers.
pub mod Class
pub mod MimeTypes
pub mod Tests
