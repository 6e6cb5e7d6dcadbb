-- ===== src/Comm/Delivery.antt =====
-- What `sendMessage` makes the socket take.
use peer_to_peer_fileshare.Base.{
  ℕ, ◌-◌, ◌≡◌, refl, ◌∙◌, ap, Bool-cases, inl, inr, List, [], ◌∷◌, ◌++◌, length, take, drop,
  take-append-drop, append_assoc, ltb, All,
}
use peer_to_peer_fileshare.CString.{Text}
use peer_to_peer_fileshare.Comm.Defs.{
  WriteResult, wrote, write_failed, Sent, delivered, broken, after_bytes, send_message,
}

-- What the socket took is the message, or a first part of it.
abbrev pub IsFaithful : Text → Sent → Type 0
IsFaithful buffer (delivered x ws) = x ≡ buffer
IsFaithful buffer (broken x ws) = (y : Text) × (x ++ y ≡ buffer)

after_bytes-IsFaithful :
    (r : ℕ) (buffer : Text) (o : Sent)
    → IsFaithful (drop r buffer) o
    → IsFaithful buffer (after_bytes (take r buffer) o)
after_bytes-IsFaithful r buffer (delivered x ws) h =
    ap (λ y. take r buffer ++ y) h ∙ take-append-drop r buffer
after_bytes-IsFaithful r buffer (broken x ws) (y, h) = (
  y,
  append_assoc (take r buffer) x y ∙ ap (λ z. take r buffer ++ z) h ∙ take-append-drop r buffer,
)

-- What `sendMessage` has made the socket take is the whole message, in order, if it returns 0, and
-- a first part of it if it returns -1.
pub send_message-IsFaithful :
    (ws : List WriteResult) (buffer : Text) → IsFaithful buffer (send_message ws buffer)
unfolding send_message
send_message-IsFaithful [] buffer = refl
send_message-IsFaithful (write_failed ∷ ws) buffer = (buffer, refl)
send_message-IsFaithful (wrote r ∷ ws) buffer = elim (Bool-cases (ltb 0 (length buffer - r))) [
  | inl more ↦
      rw more (after_bytes-IsFaithful r buffer _ (send_message-IsFaithful ws (drop r buffer)))
  | inr done ↦ rw done refl
]

abbrev pub Succeeds : WriteResult → Type 0
Succeeds (wrote r) = Unit
Succeeds write_failed = ⊥

-- If no call of `write` fails, `sendMessage` returns 0, and the socket took the whole message.
pub send_message-delivered :
    (ws : List WriteResult) (buffer : Text)
    → All Succeeds ws
    → (left : List WriteResult) × (send_message ws buffer ≡ delivered buffer left)
unfolding send_message
send_message-delivered [] buffer h = ([], refl)
send_message-delivered (write_failed ∷ ws) buffer h = absurd h.0
send_message-delivered (wrote r ∷ ws) buffer h = elim (Bool-cases (ltb 0 (length buffer - r))) [
  | inl more ↦
      let (left, e) = send_message-delivered ws (drop r buffer) h.1 in
      (left, rw (more, e) (ap (λ x. delivered x left) (take-append-drop r buffer)))
  | inr done ↦ (ws, rw done)
]
