-- ===== src/Lib.antt =====
-- A model of CppToolkit's job pool, messages, connections, sessions, server, files, log and command
-- line, and proofs about it.
--
-- The program. Utilities/ holds what the other libraries share: Combiner packs byte fields one behind
-- the other, Converter splits and converts text, File and Folder read, write and pack files, and
-- Logger has a thread that keeps a log file within bounds, of the lines that a Log makes.
-- ArgumentParser reads a command line, Encryptor codes by a key, JsonTool prints a value, and
-- FolderWatcher watches folders. Database/ asks a Postgres server. ThreadPool/ runs jobs: a JobPool
-- keeps a queue for each priority, a ThreadWorker takes jobs of its priorities from it, and a
-- ThreadPool owns both. Network/ sends and receives: DataHandler reads frames from a socket and makes
-- a job of each, SendingJob writes one, ReceivingJob and FileSendingJob unpack and pack messages,
-- NetworkSession handles them, and FileManager gathers the files of a transfer and reports them by a
-- job on the thread pool. A NetworkServer holds the sessions of its clients, sends to those of an id,
-- and drops them; a client and its session shake hands before they exchange messages.
--
-- The files.
-- Prelude: names and lemmas that the other files share; its Map is std::map as an association list, and
--   its Int has the integers and their machine widths.
-- Utilities/Combiner: Utilities/Combiner.cpp, append and divide. size_t wraps at 2 ^ 64, and a read
--   outside of the array is `none`. Fields and Bounds prove.
-- Utilities/Converter: split, replace2, to_array and to_string of Utilities/Converter.cpp.
-- Utilities/File: Utilities/File.cpp over a disk, a map from paths to contents, and a model of
--   std::fstream with a position and a flag for failure. Bytes, Lines and Coded prove.
-- Utilities/Folder: Utilities/Folder.cpp: the searches over a tree of entries, and the archive, written
--   and read through Utilities/File; Making has create_folder and delete_folder. Search, Packing and Unpacking
--   prove.
-- Utilities/ArgumentParser: Utilities/ArgumentParser.cpp: parse, the getters, the regular expression of
--   to_array as the matcher runs it, and atoi. Options, Matches,
--   Fields and Numbers prove.
-- Utilities/Logger: write_log of Utilities/Logger.cpp, its files through Utilities/File. Logger/Queue has
--   the setters, write, start, stop, the rounds of the thread, and check_life_cycle; Order and Cycle prove.
-- Utilities/Log: Utilities/Log.cpp, the text and the JSON members of a log of each kind.
-- Utilities/Encryptor: Utilities/Encryptor.cpp, with to_base64 and from_base64 of Converter.cpp.
-- Utilities/JsonTool: Utilities/JsonTool.cpp. Layout proves.
-- Utilities/Compressor: the blocks of Utilities/Compressor.cpp over the streams of LZ4.
-- Thread/JobPriorities, Thread/Job, Thread/JobPool, Thread/ThreadWorker, Thread/ThreadPool: the files of
--   ThreadPool/ of those names. An operation that holds a mutex is one function on the state. The loop of
--   ThreadWorker::run is `round`, with what it reads of the pool as arguments, since other threads come
--   between; `drain` is the loop of a worker that is told to stop. JobPool/Refinement has the abstract
--   pool, a queue for each priority and a lock. JobPool/Backups has uncompleted_jobs.
-- Network/DataHandler: the reads of Network/DataHandler.cpp as a state machine. A read_ function sets
--   the pending read, `complete` is its handler, and `deliver` serves it from a stream of bytes.
-- Network/SendingJob: Network/SendingJob.cpp over a socket, which is a parameter.
-- Network/FileManager: Network/FileManager.cpp, its job pushed on the thread pool of Thread/ThreadPool.
-- Network/Messages: what Network/DataHandler.cpp, ReceivingJob.cpp, FileSendingJob.cpp and
--   NetworkSession.cpp pack and unpack; `file_sending_job` is FileSendingJob::working.
-- Network/Stages: encrypt_message, compress_message, decompress_message and decrypt_message of
--   Network/DataHandler.cpp.
-- Network/Handshake: received_connection, request_connection, response_connection and disconnected of
--   Network/NetworkSession.cpp and NetworkClient.cpp, and ConnectionJob.cpp.
-- Network/NetworkSession: the constructor, start, stop, received_data, received_files and the thread pool of
--   Network/NetworkSession.cpp, over the line of Network/Handshake, the reads of Network/DataHandler and
--   the messages of Network/Messages. What the session shares with its file manager, its thread pool, is
--   lent to that for a call and taken back; a condition is set in the line and in the reader.
--   NetworkServer/Callbacks has what the server does with the calls of its sessions.
-- Network/NetworkServer: Network/NetworkServer.cpp over any kind of session, what it calls of one being
--   the record SessionOps; its thread pool is that of Thread/ThreadPool. NetworkServer/Sessions has these
--   operations for the sessions of Network/NetworkSession.
-- Network/NetworkClient: start, stop and wait_stop of Network/NetworkClient.cpp, with the thread pool and
--   the socket of Network/DataHandler.cpp; NetworkClient/Receiving has received_data with its handlers.
-- Network/TempFiles: save_temp_path of Network/DataHandler.cpp over Utilities/File.
-- Network/SendingFiles: send_files of Network/DataHandler.cpp.
-- Database: Database/PostgresDB.cpp over libpq. Utilities/FolderWatcher: FolderWatcher.cpp over efsw.
-- Tests: the theorems at concrete inputs.
--
-- Numbers are natural numbers; size_t is cut to 64 bits where the code's sums can pass it. Bytes and
-- characters are numbers, and texts are lists of bytes. Undefined behaviour and a loop out of fuel are
-- `none` or a constructor of their own; so is a thread that waits for ever.
--
-- Workers that a stop of a pool joins drain it one after the other, since only the stop itself is modelled,
-- and its lock keeps their jobs from pushing. What a stop of the log loses, a notification between the test
-- and the sleep of the thread, is an argument of the stop.
--
-- Fuel. SendingJob::send_data has one unit for each byte and one more, since a round sends a byte at
-- least. split and replace2 have the same, since a token that is not empty takes the loop forward;
-- with an empty token the code does not end. A worker that is joined has one for each job and one
-- more, since a round takes a job or ends the loop. Folder::decompression has one for each byte of the
-- archive and one more, since a round that goes on has read a field; so have the loops of Compressor.
-- The iterator of to_array moves by a character at least, and the thread of a logger that is told to
-- stop needs two rounds. Theorems say that these are enough.
--
-- Parameters. The socket's send takes bytes from the front of what it is given, as Boost.Asio
-- documents; the streams of LZ4, the compressor and the encryptor where others call them, the threads
-- that the system makes, the callbacks of jobs, the paths of std::filesystem, which files the system
-- lets the program open, and the JSON texts of a handshake are functions. So are Crypto++'s base64 and
-- AES, libpq, efsw, and the clocks of Logger and the texts that fmt makes of a time. So are the reading of a file
-- and the writing of a temporary one in Network/Messages. An error text that prints a number or an id
-- is given by its fixed part where the models say so.
--
-- Not modelled: lines that are written to the log by the other parts; conversions between encodings,
-- which are calls of std::locale; system information and guids; Boost.Asio's accept and connect; the
-- samples.
pub mod Prelude
pub mod Utilities
pub mod Thread
pub mod Network
pub mod Database
pub mod Tests
