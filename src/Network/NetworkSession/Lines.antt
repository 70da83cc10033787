-- ===== src/Network/NetworkSession/Lines.antt =====
-- What the calls of condition() leave of a session: its line and its reader agree, and its thread pool keeps
-- its pool of jobs.
use cpp_toolkit.Prelude.{
  ℕ, ◌≡◌, refl, ap, arith, Bool, true, false, Option, none, some, List, ◌==◌, is_empty, Bool-cases,
  ◌⊎◌, inl, inr, eq_of_test,
}
use cpp_toolkit.Utilities.Converter.{to_array}
use cpp_toolkit.Thread.Job.{Outcome}
use cpp_toolkit.Thread.ThreadPool.{ThreadPool, push_job}
use cpp_toolkit.Thread.ThreadPool.Jobs.{IsSound, push_job-HasJobs}
use cpp_toolkit.Network.DataHandler
use cpp_toolkit.Network.DataHandler.{
  ConnectConditions, unconnected, waiting, expired, condition_eq, Reader, start_code,
  read_start_code, is_open,
}
use cpp_toolkit.Network.Messages.{Sender, connection, send, stage_job, envelope}
use cpp_toolkit.Network.Handshake
use cpp_toolkit.Network.Handshake.{
  Json, with_key, answer_by, answer_with, answer_of, response_connection, set_condition, report_job,
}
use cpp_toolkit.Network.Handshake.Answers.{in_condition, response_condition}
use cpp_toolkit.Network.NetworkSession.{NetworkSession, follow, enter}

unsent :
    (bytes : List ℕ) (sender : Sender)
    → (sender.socket ≡ false) ⊎ (is_empty bytes ≡ true)
    → (send connection bytes sender).0.thread_pool ≡ sender.thread_pool
unfolding send
unsent bytes sender (inl no_socket) = rw no_socket refl
unsent bytes sender (inr empty) = ground (arith, empty)

sent_without :
    (bytes : List ℕ) (sender : Sender)
    → sender.thread_pool ≡ none
    → (send connection bytes sender).0.thread_pool ≡ none
unfolding send
sent_without bytes sender e = ground (arith, e)

sent_on :
    (bytes : List ℕ) (sender : Sender) (pool : ThreadPool)
    → sender.socket ≡ true
    → is_empty bytes ≡ false
    → sender.thread_pool ≡ some pool
    → (send connection bytes sender).0.thread_pool
      ≡ some
          (push_job
            (some (stage_job sender.use_encrypt_module connection (envelope connection bytes)))
            pool).0
unfolding send
sent_on bytes sender pool socket full e = rw (socket, e, full) refl

send-IsSound :
    (bytes : List ℕ) (sender : Sender)
    → IsSound sender.thread_pool
    → IsSound (send connection bytes sender).0.thread_pool
send-IsSound bytes sender sound = elim (Bool-cases sender.socket) [
  | inr no_socket ↦ rw (unsent bytes sender (inl no_socket)) sound
  | inl socket ↦ elim (Bool-cases (is_empty bytes)) [
    | inl empty ↦ rw (unsent bytes sender (inr empty)) sound
    | inr full ↦ pooled socket full sender.thread_pool refl sound
  ]
]
  where
    pooled :
        sender.socket ≡ true
        → is_empty bytes ≡ false
        → (o : Option ThreadPool) → sender.thread_pool ≡ o
        → IsSound o
        → IsSound (send connection bytes sender).0.thread_pool
    pooled socket full none e h = rw (sent_without bytes sender e) tt
    pooled socket full (some pool) e h = rw (sent_on bytes sender pool socket full e) (
        push_job-HasJobs
          (stage_job sender.use_encrypt_module connection (envelope connection bytes)) pool h)

pub reader_condition :
    (condition : ConnectConditions) (reader : Reader)
    → (DataHandler.set_condition condition reader).condition ≡ condition
unfolding DataHandler.set_condition
reader_condition condition reader = elim (Bool-cases (reader.condition == condition)) [
  | inl same ↦ rw same (eq_of_test reader.condition condition same)
  | inr other ↦ ground (arith, other)
]

pub test_of_eq : (a b : ConnectConditions) → a ≡ b → (a == b) ≡ true
test_of_eq a b e = (condition_eq.beq_iff a b).1 e

pub reader_keeps :
    (condition : ConnectConditions) (reader : Reader)
    → ((DataHandler.set_condition condition reader).socket ≡ reader.socket)
      × ((DataHandler.set_condition condition reader).buffer_size ≡ reader.buffer_size)
unfolding DataHandler.set_condition
reader_keeps condition reader = ground arith

module _ (json : Json) where
  pub line_stays :
      (condition : ConnectConditions) (line : Handshake.Session)
      → line.sender.condition ≡ condition
      → set_condition json condition line ≡ line
  unfolding set_condition
  line_stays condition line e = rw (test_of_eq line.sender.condition condition e) refl

  answer_by-IsSound :
      (bytes : List ℕ) (line : Handshake.Session) (pool : Option ThreadPool)
      (callback : Option (List ℕ → Outcome))
      → line.sender.thread_pool ≡ pool
      → IsSound pool
      → IsSound (answer_by bytes line pool callback).0.sender.thread_pool
  answer_by-IsSound bytes line (some pool) callback e sound =
      send-IsSound bytes
        (record line.sender { thread_pool = some (push_job (some (report_job line bytes)) pool).0 })
        (push_job-HasJobs (report_job line bytes) pool sound)
  answer_by-IsSound bytes line none none e sound = rw e tt
  answer_by-IsSound bytes line none (some call) e sound = rw e tt

  with_key_pool :
      (line : Handshake.Session) → (with_key line).sender.thread_pool ≡ line.sender.thread_pool
  with_key_pool line = ground arith

  response-IsSound :
      (condition : Bool) (line : Handshake.Session)
      → IsSound line.sender.thread_pool
      → IsSound (response_connection json condition line).0.sender.thread_pool
  unfolding response_connection answer_with
  response-IsSound condition line sound =
      let line' = with_key line in
      answer_by-IsSound (to_array (json.answer_text (answer_of condition line'))) line'
        line'.sender.thread_pool line'.callback refl (rw (with_key_pool line) sound)

  -- A line in a condition, with a thread pool that has its pool of jobs, if it has one.
  abbrev pub Stands : ConnectConditions → Handshake.Session → Type 0
  Stands condition line = (line.sender.condition ≡ condition) × IsSound line.sender.thread_pool

  pub set_condition-Stands :
      (condition : ConnectConditions) (line : Handshake.Session)
      → IsSound line.sender.thread_pool
      → Stands condition (set_condition json condition line)
  unfolding set_condition
  set_condition-Stands condition line sound =
      elim (Bool-cases (line.sender.condition == condition)) [
        | inl same ↦ rw same (eq_of_test line.sender.condition condition same, sound)
        | inr other ↦ rw other (elim (Bool-cases (condition == expired)) [
          | inl gone ↦ rw gone (
            response_condition json false (in_condition condition line),
            response-IsSound false (in_condition condition line) sound,
          )
          | inr on ↦ rw on (refl, sound)
        ])
      ]

  -- A session whose line and reader are in a condition, with a sound pool.
  abbrev pub Enters : ConnectConditions → NetworkSession → Type 0
  Enters condition session =
      Stands condition session.line × (session.messages.reader.condition ≡ condition)

  pub enter-Enters :
      (condition : ConnectConditions) (session : NetworkSession)
      → IsSound session.line.sender.thread_pool
      → Enters condition (enter json condition session)
  unfolding enter
  enter-Enters condition session sound =
      let same = reader_condition condition session.messages.reader in
      rw same (set_condition-Stands condition session.line sound, refl)

  -- A session whose line is in the condition of its reader need not follow.
  pub followed :
      (session : NetworkSession)
      → session.line.sender.condition ≡ session.messages.reader.condition
      → follow json session ≡ session
  unfolding follow
  followed session e =
      ap (λ line. record session { line = line })
        (line_stays session.messages.reader.condition session.line e)
