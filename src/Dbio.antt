-- ===== src/Dbio.antt =====
-- Package dbio: blocks of bytes, bitmaps, and the buffer in front of the data file.
pub mod Bytes
pub mod DataBlock
pub mod BitMap
pub mod DataFile
pub mod DataBuffer
