-- ===== src/Tests.antt =====
-- The theorems at concrete inputs, by library.
mod OfUtilities
mod OfThread
mod OfNetwork
mod OfFiles
mod OfServer
mod OfHandshake
mod OfClient
mod OfArguments
mod OfTools
mod OfSession
