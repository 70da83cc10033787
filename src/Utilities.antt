-- ===== src/Utilities.antt =====
-- The library of Utilities/.
pub mod ArgumentParser
pub mod Combiner
pub mod Converter
pub mod File
pub mod Folder
pub mod FolderWatcher
pub mod Logger
pub mod Compressor
pub mod JsonTool
pub mod Log
pub mod Encryptor
