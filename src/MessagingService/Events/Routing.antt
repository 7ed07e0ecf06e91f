-- ===== src/MessagingService/Events/Routing.antt =====
-- Whom an event reaches.
use mathlib.Core.List.{append-nil}
use qdplay.Prelude.{
  ℕ, ◌≡◌, ◌≢◌, refl, ◌∙◌, ap, true, false, List, [], ◌∷◌, ◌++◌, map, ◌==◌, if◌then◌else◌, ◌⊎◌, inl,
  inr, Bool-cases, arith,
}
use qdplay.MessagingService.{Client, Output, sends, Network}
use qdplay.MessagingService.Events.{
  send_to_client, route_active_or_all, send_to_pid, send_to_all, send,
}

-- The messages that are sent, with the descriptors they go to.
unfoldable pub sent_of : List Output → List (ℕ × List ℕ)
sent_of [] = []
sent_of (sends fd bytes ∷ os) = (fd, bytes) ∷ sent_of os
sent_of (_ ∷ os) = sent_of os

-- The clients of a process.
unfoldable pub clients_of : ℕ → List Client → List Client
clients_of pid [] = []
clients_of pid (c ∷ cs) = if c.pid == pid then c ∷ clients_of pid cs else clients_of pid cs

-- `bytes` for each of the clients, once.
abbrev pub to_each : List ℕ → List Client → List (ℕ × List ℕ)
to_each bytes = map (λ c. (c.fd, bytes))

sent_of-client :
    (net : Network) (c : Client) (bytes : List ℕ) (os : List Output)
    → sent_of (send_to_client net c bytes ++ os) ≡ (c.fd, bytes) ∷ sent_of os
unfolding sent_of
sent_of-client net c bytes os = elim (Bool-cases (net c.fd bytes)) [
  | inl e ↦ rw e refl
  | inr e ↦ rw e refl
]

sent_of-all :
    (net : Network) (bytes : List ℕ) (cs : List Client)
    → sent_of (send_to_all net bytes cs) ≡ to_each bytes cs
unfolding sent_of send_to_all
sent_of-all net bytes [] = refl
sent_of-all net bytes (c ∷ cs) =
    sent_of-client net c bytes (send_to_all net bytes cs)
    ∙ ap (◌∷◌ (c.fd, bytes)) (sent_of-all net bytes cs)

sent_of-pid :
    (net : Network) (pid : ℕ) (bytes : List ℕ) (cs : List Client)
    → sent_of (send_to_pid net pid bytes cs).0 ≡ to_each bytes (clients_of pid cs)
unfolding sent_of send_to_pid clients_of
sent_of-pid net pid bytes [] = refl
sent_of-pid net pid bytes (c ∷ cs) = elim (Bool-cases (c.pid == pid)) [
  | inl e ↦ rw e (
      sent_of-client net c bytes (send_to_pid net pid bytes cs).0
      ∙ ap (◌∷◌ (c.fd, bytes)) (sent_of-pid net pid bytes cs))
  | inr e ↦ rw e (sent_of-pid net pid bytes cs)
]

sent_of-append : (xs ys : List Output) → sent_of (xs ++ ys) ≡ sent_of xs ++ sent_of ys
unfolding sent_of
sent_of-append [] ys = refl
sent_of-append (sends fd bytes ∷ xs) ys = ap (◌∷◌ (fd, bytes)) (sent_of-append xs ys)
sent_of-append (_ ∷ xs) ys = sent_of-append xs ys

delivered_some :
    (net : Network) (pid : ℕ) (bytes : List ℕ) (cs : List Client)
    → clients_of pid cs ≢ []
    → (send_to_pid net pid bytes cs).1 ≡ true
unfolding send_to_pid clients_of
delivered_some net pid bytes [] some = absurd (some refl)
delivered_some net pid bytes (c ∷ cs) some = elim (Bool-cases (c.pid == pid)) [
  | inl e ↦ rw e refl
  | inr e ↦
      rw e (delivered_some net pid bytes cs (λ none_left. some (rw (e, clients_of) none_left)))
]

delivered_none :
    (net : Network) (pid : ℕ) (bytes : List ℕ) (cs : List Client)
    → clients_of pid cs ≡ []
    → (send_to_pid net pid bytes cs).1 ≡ false
unfolding send_to_pid clients_of
delivered_none net pid bytes [] none_left = refl
delivered_none net pid bytes (c ∷ cs) none_left = elim (Bool-cases (c.pid == pid)) [
  | inl e ↦ cc (none_left, e)
  | inr e ↦ rw e (delivered_none net pid bytes cs (ground (arith, e, none_left)))
]

-- An event for the active process reaches each client of that process once and nobody else, if there
-- is an active process and it has a client.
pub sent_of-send :
    (net : Network) (pid : ℕ) (bytes : List ℕ) (cs : List Client)
    → pid ≢ 0
    → clients_of pid cs ≢ []
    → sent_of (send net route_active_or_all pid bytes cs) ≡ to_each bytes (clients_of pid cs)
unfolding send
sent_of-send net pid bytes cs active some =
    let addressed : (pid == 0) ≡ false = ground (arith, active) in
    rw (addressed, delivered_some net pid bytes cs some, send)
      (ap sent_of (append-nil _) ∙ sent_of-pid net pid bytes cs)

-- An event for the active process reaches each client once, if there is no active process or it has
-- no client.
pub sent_of-send_all :
    (net : Network) (pid : ℕ) (bytes : List ℕ) (cs : List Client)
    → (pid ≡ 0) ⊎ (clients_of pid cs ≡ [])
    → sent_of (send net route_active_or_all pid bytes cs) ≡ to_each bytes cs
unfolding send
sent_of-send_all net pid bytes cs (inl idle) = rw (idle, send) (sent_of-all net bytes cs)
sent_of-send_all net pid bytes cs (inr none_left) = elim (Bool-cases (pid == 0)) [
  | inl e ↦ rw (e, send) (sent_of-all net bytes cs)
  | inr e ↦
      rw (e, delivered_none net pid bytes cs none_left, send)
        (sent_of-append _ _
          ∙ ap (λ l. l ++ sent_of (send_to_all net bytes cs))
              (sent_of-pid net pid bytes cs ∙ ap (to_each bytes) none_left)
          ∙ sent_of-all net bytes cs)
]
