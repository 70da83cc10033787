-- ===== src/Network/Stages.antt =====
-- The stages between a message and the wire, of Network/DataHandler.cpp: encrypt_message, compress_message,
-- decompress_message, decrypt_message. Each makes a job of its result for the thread pool. The
-- compressor and the encryptor rest on LZ4 and Crypto++ and are parameters: what they give, or
-- `none` for no result. `use_encrypt_module` is the build's switch.
pub mod Chain
use cpp_toolkit.Prelude.{
  Bool, true, false, Option, none, some, List, [], ◌∷◌, codes, if◌then◌else◌, ◌==◌, ℕ,
}
use cpp_toolkit.Thread.JobPriorities.{top, high, normal}
use cpp_toolkit.Thread.Job.{Job, Outcome, make_job, make_data_job}
use cpp_toolkit.Thread.ThreadPool.{ThreadPool, push_job}
use cpp_toolkit.Network.DataHandler.{ConnectConditions, expired, condition_eq}

pub record Codec : Type 0 where
  pub encode : List ℕ → Option (List ℕ)
  pub decode : List ℕ → Option (List ℕ)

pub record Handler : Type 0 where
  pub condition : ConnectConditions
  pub thread_pool : Option ThreadPool
  pub use_encrypt_module : Bool
  pub encrypt_mode : Bool
  pub compressor : Codec
  pub encryptor : Codec

-- Data that could not be coded goes on as it is.
abbrev pub value_or : List ℕ → Option (List ℕ) → List ℕ
value_or bytes none = bytes
value_or bytes (some buffer) = buffer

unfoldable pub compress_job : Handler → List ℕ → Job
compress_job h bytes =
    make_job top (value_or bytes (h.compressor.encode bytes)) (codes "SendingJob") true

unfoldable pub receiving : List ℕ → Job
receiving bytes = make_job high bytes (codes "ReceivingJob") true

unfoldable pub decompress_job : Handler → List ℕ → Job
unfolding receiving
decompress_job h bytes =
    let buffer = value_or bytes (h.compressor.decode bytes) in
    if h.use_encrypt_module
    then make_data_job normal buffer (codes "decrypt_message") true
    else receiving buffer

unfoldable pub encrypt_job : Handler → List ℕ → Job
encrypt_job h bytes =
    let buffer = if h.encrypt_mode then value_or bytes (h.encryptor.encode bytes) else bytes in
    make_data_job high buffer (codes "compress_message") true

unfoldable pub decrypt_job : Handler → List ℕ → Job
unfolding receiving
decrypt_job h bytes =
    receiving (if h.encrypt_mode then value_or bytes (h.encryptor.decode bytes) else bytes)

-- The stages by what they push.
unfoldable pub stage : (Handler → List ℕ → Job) → List ℕ → Handler → Handler × Outcome
stage job bytes h =
    if h.condition == expired
    then (h, (false, some (codes "connection has expired")))
    else elim h.thread_pool [
      | none ↦ (h, (false, some (codes "thread pool has no handle")))
      | some pool ↦
          let (pool', outcome, notified) = push_job (some (job h bytes)) pool in
          (record h { thread_pool = some pool' }, outcome)
    ]

unfoldable pub compress_message : List ℕ → Handler → Handler × Outcome
unfolding stage compress_job
compress_message = stage compress_job

unfoldable pub decompress_message : List ℕ → Handler → Handler × Outcome
unfolding stage decompress_job
decompress_message = stage decompress_job

unfoldable pub encrypt_message : List ℕ → Handler → Handler × Outcome
unfolding stage encrypt_job
encrypt_message = stage encrypt_job

unfoldable pub decrypt_message : List ℕ → Handler → Handler × Outcome
unfolding stage decrypt_job
decrypt_message = stage decrypt_job
