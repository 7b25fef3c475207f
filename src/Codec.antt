-- ===== src/Codec.antt =====
-- The codec: include/moq/codec.h, src/codec/codec_internal.h, codec.cpp and control.cpp.
pub mod Varint
pub mod Cursor
pub mod Reader
pub mod Framing
pub mod Namespace
pub mod Parameters
pub mod Messages
pub mod Decoders
pub mod Objects
