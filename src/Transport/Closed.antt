-- ===== src/Transport/Closed.antt =====
-- A transport whose adapter has gone stays closed.
use Prim.Native.String.{String}
use princess_ide.Prelude.{
  ℕ, ◌≡◌, refl, inl, inr, arith, Bool, some, List, [], ◌∷◌, ◌==◌, Option-cases, Bool-cases, err,
}
use princess_ide.ErrorCode.{qemu_failed}
use princess_ide.Transport.{
  response, event, closed, Received, message, timed_out, disconnected, Transport, stash, push_event,
  send, Waited, wait_response, request_within,
}

module _ {Value : Type 0} where
  -- If a wait ended because the adapter has gone, the transport says why.
  abbrev Shut : Waited Value Value → Type 0
  Shut w = w.result ≡ err qemu_failed → (reason : String) × (w.after.closed ≡ some reason)

  wait_response-Shut :
      (seq : ℕ) (t : Transport Value) (turns : List (Received Value))
      → Shut (wait_response seq t turns)
  unfolding wait_response
  wait_response-Shut seq t [] = elim (Option-cases (t.early seq)) [
    | inl nothing ↦ rw (wait_response, nothing) (λ h. absurd (ground arith))
    | inr (m, there) ↦ rw (wait_response, there) (λ h. absurd (ground arith))
  ]
  wait_response-Shut seq t (timed_out ∷ turns) = elim (Option-cases (t.early seq)) [
    | inl nothing ↦ rw (wait_response, nothing) (wait_response-Shut seq t turns)
    | inr (m, there) ↦ rw (wait_response, there) (λ h. absurd (ground arith))
  ]
  wait_response-Shut seq t (disconnected ∷ turns) = elim (Option-cases (t.early seq)) [
    | inl nothing ↦ rw (wait_response, nothing) (λ h. ("debug adapter reader thread stopped", refl))
    | inr (m, there) ↦ rw (wait_response, there) (λ h. absurd (ground arith))
  ]
  wait_response-Shut seq t (message (event e) ∷ turns) = elim (Option-cases (t.early seq)) [
    | inl nothing ↦ rw (wait_response, nothing) (wait_response-Shut seq (push_event e t) turns)
    | inr (m, there) ↦ rw (wait_response, there) (λ h. absurd (ground arith))
  ]
  wait_response-Shut seq t (message (closed reason) ∷ turns) = elim (Option-cases (t.early seq)) [
    | inl nothing ↦ rw (wait_response, nothing) (λ h. (reason, refl))
    | inr (m, there) ↦ rw (wait_response, there) (λ h. absurd (ground arith))
  ]
  wait_response-Shut seq t (message (response s m) ∷ turns) = elim (Option-cases (t.early seq)) [
    | inr (n, there) ↦ rw (wait_response, there) (λ h. absurd (ground arith))
    | inl nothing ↦ elim (Bool-cases (s == seq)) [
      | inl own ↦ rw (wait_response, nothing, own) (λ h. absurd (ground arith))
      | inr other ↦ rw (wait_response, nothing, other) (wait_response-Shut seq (stash s m t) turns)
    ]
  ]

  send-closed :
      (t : Transport Value) (written : Bool) (reason : String)
      → t.closed ≡ some reason
      → send t written ≡ (t, err qemu_failed)
  unfolding send
  send-closed t written reason shut = simp (send, shut)

  -- Once a wait for a response has failed because the adapter has gone, every later request fails with
  -- the same code, writes nothing, and leaves the transport and what arrives as they are.
  pub request_after_close :
      (seq : ℕ) (t : Transport Value) (turns later : List (Received Value)) (written : Bool)
      → (wait_response seq t turns).result ≡ err qemu_failed
      → let gone = (wait_response seq t turns).after in
        request_within gone written later
        ≡ record { after = gone; result = err qemu_failed; left = later }
  unfolding request_within
  request_after_close seq t turns later written h =
      let (reason, shut) = wait_response-Shut seq t turns h in
      let e = send-closed (wait_response seq t turns).after written reason shut in
      simp (request_within, e)
