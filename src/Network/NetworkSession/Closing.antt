-- ===== src/Network/NetworkSession/Closing.antt =====
-- A line that is not confirmed stays so until a request bears the registered key.
use cpp_toolkit.Prelude.{
  codes, ℕ, ◌≡◌, refl, ◌∙◌, arith, Bool, true, false, ◌&&◌, Option, none, some, List, if◌then◌else◌,
  ◌==◌, nat_eq, bytes_eq, is_empty, Bool-cases, ◌⊎◌, inl, inr, eq_of_test, Option-cases,
}
use cpp_toolkit.Utilities.Converter.{to_array, to_string}
use cpp_toolkit.Thread.Job.{Text, Outcome}
use cpp_toolkit.Thread.ThreadPool.{ThreadPool}
use cpp_toolkit.Network.DataHandler.{ConnectConditions, expired, confirmed, waiting, condition_eq}
use cpp_toolkit.Network.Handshake
use cpp_toolkit.Network.Handshake.{
  Json, Request, has_key, with_key, answer_by, answer_with, answer_of, response_connection,
  session_received, set_condition,
}
use cpp_toolkit.Network.Handshake.Answers.{named, in_condition, response_condition}

-- The code of a mode, and the data.
abbrev pub Input : Type 0
Input = ℕ × List ℕ

-- The input is a request that bears the key.
unfoldable pub bears_key : Json → Text → Input → Bool
bears_key json key (mode, bytes) = (mode == 3) && elim (json.parse_request (to_string bytes)) [
  | none ↦ false
  | some request ↦ has_key key request.registered_key
]

-- A line with the key that is not confirmed.
abbrev pub IsClosed : Text → Handshake.Session → Type 0
IsClosed key line = ((line.sender.condition == confirmed) ≡ false) × (line.registered_key ≡ key)

abbrev late_outcome : Outcome
late_outcome = (false, some (codes "the line is not waiting for connection"))

abbrev empty_outcome : Outcome
empty_outcome = (false, some (codes "received empty data for connection"))

-- The line that is left, if one is.
abbrev pub Closes : Text → Option (Handshake.Session × Outcome) → Type 0
Closes key none = Unit {0}
Closes key (some (after, outcome)) = IsClosed key after

module _ (json : Json) where
  answer_by-key :
      (bytes : List ℕ) (line : Handshake.Session) (pool : Option ThreadPool)
      (callback : Option (List ℕ → Outcome))
      → (answer_by bytes line pool callback).0.registered_key ≡ line.registered_key
  answer_by-key bytes line (some pool) callback = refl
  answer_by-key bytes line none none = refl
  answer_by-key bytes line none (some call) = refl

  with_key-key : (line : Handshake.Session) → (with_key line).registered_key ≡ line.registered_key
  with_key-key line = ground arith

  response-key :
      (condition : Bool) (line : Handshake.Session)
      → (response_connection json condition line).0.registered_key ≡ line.registered_key
  unfolding response_connection answer_with
  response-key condition line =
      let line' = with_key line in
      answer_by-key (to_array (json.answer_text (answer_of condition line'))) line'
        line'.sender.thread_pool line'.callback
      ∙ with_key-key line

  response-IsClosed :
      (key : Text) (condition : Bool) (line : Handshake.Session)
      → IsClosed key line
      → IsClosed key (response_connection json condition line).0
  response-IsClosed key condition line (shut, e) =
      (rw (response_condition json condition line) shut, response-key condition line ∙ e)

  -- A line that goes to a condition which is not Confirmed.
  pub set_condition-IsClosed :
      (key : Text) (condition : ConnectConditions) (line : Handshake.Session)
      → (condition == confirmed) ≡ false
      → line.registered_key ≡ key
      → IsClosed key (set_condition json condition line)
  unfolding set_condition
  set_condition-IsClosed key condition line h e =
      elim (Bool-cases (line.sender.condition == condition)) [
        | inl same ↦ rw same (rw (eq_of_test line.sender.condition condition same) h, e)
        | inr other ↦ rw other (moved (Bool-cases (condition == expired)))
      ]
    where
      moved :
          ((condition == expired) ≡ true) ⊎ ((condition == expired) ≡ false)
          → IsClosed key (
              if condition == expired
              then (response_connection json false (in_condition condition line)).0
              else in_condition condition line)
      moved (inl x) = rw x (response-IsClosed key false (in_condition condition line) (h, e))
      moved (inr y) = rw y (h, e)

  -- A line that refuses a request.
  refused-IsClosed :
      (key : Text) (request : Request) (line : Handshake.Session)
      → line.registered_key ≡ key
      → IsClosed key
          (response_connection json false (set_condition json expired (named request.id line))).0
  refused-IsClosed key request line e =
      response-IsClosed key false (set_condition json expired (named request.id line))
        (set_condition-IsClosed key expired (named request.id line) refl e)

  received_refused :
      (key : Text) (bytes : List ℕ) (request : Request) (line : Handshake.Session)
      → line.sender.condition ≡ waiting
      → is_empty bytes ≡ false
      → json.parse_request (to_string bytes) ≡ some request
      → has_key line.registered_key request.registered_key ≡ false
      → session_received json bytes line
        ≡ some (response_connection json false (set_condition json expired (named request.id line)))
  unfolding session_received
  received_refused key bytes request line waits full parsed bad =
      rw (session_received, waits, full, parsed, bad) refl

  received_early :
      (bytes : List ℕ) (line : Handshake.Session)
      → ((line.sender.condition == waiting) ≡ false) ⊎ (is_empty bytes ≡ true)
      → (outcome : Outcome) × (session_received json bytes line ≡ some (line, outcome))
  unfolding session_received
  received_early bytes line (inl late) = (late_outcome, rw late refl)
  received_early bytes line (inr empty) = elim (Bool-cases (line.sender.condition == waiting)) [
    | inl waits ↦ (empty_outcome, rw (waits, empty) refl)
    | inr late ↦ (late_outcome, rw late refl)
  ]

  received_unread :
      (bytes : List ℕ) (line : Handshake.Session)
      → line.sender.condition ≡ waiting
      → is_empty bytes ≡ false
      → json.parse_request (to_string bytes) ≡ none
      → session_received json bytes line ≡ none
  unfolding session_received
  received_unread bytes line waits full unread = rw (session_received, waits, full, unread) refl

  bears_not :
      (key : Text) (bytes : List ℕ) (request : Request)
      → json.parse_request (to_string bytes) ≡ some request
      → bears_key json key (3, bytes) ≡ false
      → has_key key request.registered_key ≡ false
  unfolding bears_key
  bears_not key bytes request parsed b = ground arith

  -- A request without the key leaves a line closed.
  pub received-Closes :
      (key : Text) (bytes : List ℕ) (line : Handshake.Session)
      → IsClosed key line
      → bears_key json key (3, bytes) ≡ false
      → Closes key (session_received json bytes line)
  received-Closes key bytes line closed b = elim (Bool-cases (line.sender.condition == waiting)) [
    | inr late ↦ rw ((received_early bytes line (inl late)).1) closed
    | inl waits ↦
        in_time (eq_of_test line.sender.condition waiting waits) (Bool-cases (is_empty bytes))
  ]
    where
      parsed_so :
          line.sender.condition ≡ waiting
          → is_empty bytes ≡ false
          → (json.parse_request (to_string bytes) ≡ none)
            ⊎ ((request : Request) × (json.parse_request (to_string bytes) ≡ some request))
          → Closes key (session_received json bytes line)
      parsed_so waits full (inl unread) = rw (received_unread bytes line waits full unread) tt
      parsed_so waits full (inr (request, parsed)) =
          rw
            (received_refused key bytes request line waits full parsed
              (rw closed.1 (bears_not key bytes request parsed b)))
            (refused-IsClosed key request line closed.1)

      in_time :
          line.sender.condition ≡ waiting
          → (is_empty bytes ≡ true) ⊎ (is_empty bytes ≡ false)
          → Closes key (session_received json bytes line)
      in_time waits (inl empty) = rw ((received_early bytes line (inr empty)).1) closed
      in_time waits (inr full) =
          parsed_so waits full (Option-cases (json.parse_request (to_string bytes)))
