-- ===== src/Tests.antt =====
-- Concrete runs of the codec and of the data planes.
mod Varint
mod Messages
mod Readers
mod Receive
mod Send
mod Session
mod Subscriber
mod Publisher
mod Stream
