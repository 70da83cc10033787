-- ===== src/Network/NetworkServer/Sending.antt =====
-- Which sessions a send of the server reaches, also after sessions have been dropped.
use cpp_toolkit.Prelude.{
  ℕ, ◌≡◌, refl, ap, arith, Bool, true, false, not, ◌&&◌, ◌||◌, Option, none, some, List, [], ◌∷◌,
  ◌++◌, if◌then◌else◌, ◌==◌, bytes_eq, is_empty, All, map, Bool-cases, inl, inr,
}
use cpp_toolkit.Thread.Job.{Text, Outcome}
use cpp_toolkit.Network.NetworkServer.{
  SessionOps, NetworkServer, is_addressed, send_loop, drop_where, drop_session, sent_by,
}

module _ {ℓ} {S : Type ℓ} (ops : SessionOps S) (send : S → S × Outcome) (id sub_id : Text) where
  -- A session that is addressed sends.
  abbrev pub Sends : Option S → Type 0
  Sends none = Unit {0}
  Sends (some session) = (not (is_addressed ops id sub_id session) || (send session).1.0) ≡ true

  sends :
      (session : S)
      → Sends (some session)
      → is_addressed ops id sub_id session ≡ true
      → (send session).1.0 ≡ true
  sends session h to_it = ground arith

  -- A session once it has sent, if it is addressed.
  abbrev pub reached : Option S → Option S
  reached none = none
  reached (some session) =
      some (if is_addressed ops id sub_id session then (send session).0 else session)

  -- A send to sessions that all send, where they are addressed, says success, and each of them has sent
  -- once, no other.
  pub send_reaches :
      (sessions : List (Option S))
      → All Sends sessions
      → send_loop ops send id sub_id sessions ≡ (map reached sessions, (true, none))
  unfolding send_loop
  send_reaches [] h = refl
  send_reaches (none ∷ sessions) (h, hs) = ap (λ r. (none ∷ r.0, r.1)) (send_reaches sessions hs)
  send_reaches (some session ∷ sessions) (h, hs) =
      elim (Bool-cases (is_addressed ops id sub_id session)) [
        | inl to_it ↦
            rw (to_it, sends session h to_it)
              (ap (λ r. (some (send session).0 ∷ r.0, r.1)) (send_reaches sessions hs))
        | inr past_it ↦ rw past_it (ap (λ r. (some session ∷ r.0, r.1)) (send_reaches sessions hs))
      ]

  -- A send ends with the error of the first addressed session that does not send: those before it have
  -- sent, and those behind it are as they were.
  pub send_stops :
      (front : List (Option S)) (session : S) (rest : List (Option S)) (error : Option Text)
      → All Sends front
      → is_addressed ops id sub_id session ≡ true
      → (send session).1 ≡ (false, error)
      → send_loop ops send id sub_id (front ++ some session ∷ rest)
        ≡ (map reached front ++ reached (some session) ∷ rest, (false, error))
  unfolding send_loop
  send_stops [] session rest error h to_it e = rw (to_it, e) refl
  send_stops (none ∷ front) session rest error (h, hs) to_it e =
      ap (λ r. (none ∷ r.0, r.1)) (send_stops front session rest error hs to_it e)
  send_stops (some first ∷ front) session rest error (h, hs) to_it e =
      elim (Bool-cases (is_addressed ops id sub_id first)) [
        | inl hit ↦
            rw (hit, sends first h hit)
              (ap (λ r. (some (send first).0 ∷ r.0, r.1))
                (send_stops front session rest error hs to_it e))
        | inr miss ↦
            rw miss
              (ap (λ r. (some first ∷ r.0, r.1)) (send_stops front session rest error hs to_it e))
      ]

  -- A send that reaches none of the sessions that are left.
  send_nobody :
      (gone : S → Bool) (sessions : List (Option S))
      → ((session : S) → gone session ≡ false → is_addressed ops id sub_id session ≡ false)
      → send_loop ops send id sub_id (drop_where ops gone sessions)
        ≡ (drop_where ops gone sessions, (true, none))
  unfolding send_loop drop_where
  send_nobody gone [] h = refl
  send_nobody gone (none ∷ sessions) h = send_nobody gone sessions h
  send_nobody gone (some session ∷ sessions) h = elim (Bool-cases (gone session)) [
    | inl out ↦ rw out (send_nobody gone sessions h)
    | inr stays ↦
        rw (stays, h session stays)
          (ap (λ r. (some session ∷ r.0, r.1)) (send_nobody gone sessions h))
  ]

  -- A send that goes to none of the sessions that are dropped.
  send_others :
      (gone : S → Bool) (sessions : List (Option S))
      → ((session : S) → gone session ≡ true → is_addressed ops id sub_id session ≡ false)
      → (send_loop ops send id sub_id (drop_where ops gone sessions)).1
        ≡ (send_loop ops send id sub_id sessions).1
  unfolding send_loop drop_where
  send_others gone [] h = refl
  send_others gone (none ∷ sessions) h = send_others gone sessions h
  send_others gone (some session ∷ sessions) h = elim (Bool-cases (gone session)) [
    | inl out ↦ rw (out, h session out) (send_others gone sessions h)
    | inr stays ↦ elim (Bool-cases (is_addressed ops id sub_id session)) [
      | inr past_it ↦ rw (stays, past_it) (send_others gone sessions h)
      | inl to_it ↦ elim (Bool-cases (send session).1.0) [
        | inl sends ↦ rw (stays, to_it, sends) (send_others gone sessions h)
        | inr fails ↦ rw (stays, to_it, fails) refl
      ]
    ]
  ]

-- A session that is dropped has the id, and so is not addressed by another.
elsewhere :
    (id other its_id sub its_sub sub_id : Text)
    → is_empty other ≡ false
    → (other == id) ≡ false
    → ((id == its_id) && (sub_id == its_sub)) ≡ true
    → (is_empty other || ((other == its_id) && (is_empty sub || (sub == its_sub)))) ≡ false
elsewhere id other its_id sub its_sub sub_id named differs out =
    ground
      (arith, bytes_eq.beq_iff id its_id, bytes_eq.beq_iff other its_id, bytes_eq.beq_iff other id)

module _ {ℓ} {S : Type ℓ} (ops : SessionOps S) (server : NetworkServer S) where
  -- After drop_session of an id and a sub_id that are not empty, a send to them says success and changes
  -- nothing, and a send to another id that is not empty ends as it did before, whatever is sent.
  pub send-drop_session :
      (send : S → S × Outcome) (a b : ℕ) (id' sub_id' other sub : Text)
      → is_empty other ≡ false
      → (other == (a ∷ id')) ≡ false
      → let id = a ∷ id' in
        let sub_id = b ∷ sub_id' in
        let dropped = drop_session ops id sub_id server in
        (sent_by ops send id sub_id dropped ≡ (dropped, (true, none)))
        × ((sent_by ops send other sub dropped).1 ≡ (sent_by ops send other sub server).1)
  unfolding drop_session
  send-drop_session send a b id' sub_id' other sub named differs =
      let id = a ∷ id' in
      let sub_id = b ∷ sub_id' in
      let gone : S → Bool = λ s. (id == ops.id s) && (sub_id == ops.sub_id s) in
      (
        ap (λ r. (record server { sessions = r.0 }, r.1))
            (send_nobody ops send id sub_id gone server.sessions (λ s stays. stays)),
        send_others ops send other sub gone server.sessions
            (λ s out. elsewhere id other (ops.id s) sub (ops.sub_id s) sub_id named differs out),
      )
