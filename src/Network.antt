-- ===== src/Network.antt =====
-- The library of Network/.
pub mod DataHandler
pub mod SendingJob
pub mod FileManager
pub mod Messages
pub mod Stages
pub mod NetworkSession
pub mod NetworkServer
pub mod Handshake
pub mod NetworkClient
pub mod SendingFiles
pub mod TempFiles
