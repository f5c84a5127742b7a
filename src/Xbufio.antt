-- ===== src/Xbufio.antt =====
-- The package xbufio: the buffered writer and the buffered reader.
pub mod Writer
pub mod Reader
