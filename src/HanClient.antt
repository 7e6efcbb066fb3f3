-- ===== src/HanClient.antt =====
-- src/han_client.cpp and inc/han_client.h: the text protocol with the HAN server.
pub mod Cstring
pub mod Number
pub mod Message
pub mod DeviceTable
pub mod Client
