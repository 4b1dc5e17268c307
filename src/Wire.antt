-- ===== src/Wire.antt =====
-- Frames on a connection: common/codec.cpp, and the reading loops of data_server.cpp.
pub mod Frames
pub mod Reading
pub mod Prefix
pub mod Pieces
pub mod Serve
pub mod Examples
