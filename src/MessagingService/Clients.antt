-- ===== src/MessagingService/Clients.antt =====
-- messaging_service.c: the clients' connections, and the commands that they send.
pub mod Inv
pub mod Framing
use qdplay.Prelude.{
  ℕ, zero, suc, ◌+◌, ◌-◌, Bool, true, false, not, ◌&&◌, ◌||◌, Option, none, some, List, [], ◌∷◌,
  ◌++◌, length, get_elem?, get_or, set, take, drop, ltb, leb, ◌==◌, if◌then◌else◌,
}
use qdplay.Words.{be32_at}
use qdplay.Posix.{Errno, eintr, eagain, Outcome, done, failed}
use qdplay.VideoReceiver.{service_mark}
use qdplay.MessagingService.{
  max_clients, rx_buffer_size, Client, Service, Output, closes, sleeps, requests_active,
  yields_screen, Network,
}
use qdplay.MessagingService.Events.{screen_message, send_to_client, notify_sources}

-- How the loop over the parcels in a client's buffer ends: with what is left of it and the last
-- command, or with a bad parcel. `no_fuel` is no outcome of the code.
pub data Parsed : Type 0 where
  kept : List ℕ → ℕ → Parsed
  broken : ℕ → Parsed
  no_fuel : Parsed

-- `header->mark != ... || full_len < sizeof(header) || full_len > sizeof(client->rx_buffer)`
abbrev pub is_bad_parcel : List ℕ → Bool
is_bad_parcel rx =
    not (be32_at rx 0 == service_mark) || ltb (be32_at rx 8) 16 || ltb rx_buffer_size (be32_at rx 8)

-- The command after a parcel: its own, if it is a source control.
abbrev pub next_command : List ℕ → ℕ → ℕ
next_command rx command =
    if be32_at rx 4 == 5 && leb 17 (be32_at rx 8) then get_or rx 16 0 else command

unfoldable pub parse_loop : ℕ → List ℕ → ℕ → Parsed
parse_loop zero rx command = no_fuel
parse_loop (suc fuel) rx command =
    let rest = parse_loop fuel (drop (be32_at rx 8) rx) (next_command rx command) in
    if ltb (length rx) 16
    then kept rx command
    else if is_bad_parcel rx
    then broken command
    else if ltb (length rx) (be32_at rx 8)
    then kept rx command
    else rest

-- What `recv` does: bytes arrive, of which it takes what the buffer has room for; the peer has closed;
-- or an error.
pub data Recv : Type 0 where
  received : List ℕ → Recv
  closed : Recv
  recv_failed : Errno → Recv

-- With no byte received, and so with no room in the buffer, the result is FALSE.
abbrev pub after_parse : Client → Parsed → Bool × Client × ℕ
after_parse c (kept rx command) = (true, record c { rx = rx }, command)
after_parse c (broken command) = (false, c, command)
after_parse c no_fuel = (false, c, 0)

-- `messaging_service_read_client`: whether the client is kept, the client, and the command or 0.
unfoldable pub read_client : Client → Recv → Bool × Client × ℕ
read_client c closed = (false, c, 0)
read_client c (recv_failed eintr) = (true, c, 0)
read_client c (recv_failed eagain) = (true, c, 0)
read_client c (recv_failed e) = (false, c, 0)
read_client c (received bytes) =
    let rx = c.rx ++ take (rx_buffer_size - length c.rx) bytes in
    if length (take (rx_buffer_size - length c.rx) bytes) == 0
    then (false, c, 0)
    else after_parse c (parse_loop (suc (length rx)) rx 0)

-- `clients[i - 1] = clients[--number_of_clients]`
unfoldable pub remove_client : List Client → ℕ → List Client
remove_client cs i = elim (get_elem? cs (length cs - 1)) [
  | none ↦ cs
  | some l ↦ take (length cs - 1) (set cs i l)
]

-- What a command asks of the video receiver.
abbrev pub apply_command : ℕ → ℕ → List Output
apply_command command pid =
    if command == 1
    then requests_active pid ∷ []
    else if command == 2
    then yields_screen pid ∷ []
    else []

-- The client in slot `i`, with what `recv` returns for it, or `none` if `revents` is 0.
unfoldable pub serve_client : ℕ → Option Recv → Service → Service × List Output
serve_client i none s = (s, [])
serve_client i (some r) s = elim (get_elem? s.clients i) [
  | none ↦ (s, [])
  | some c ↦
      let (keep, c', command) = read_client c r in
      (
        record s { clients = if keep then set s.clients i c' else remove_client s.clients i },
        (if keep then [] else closes c.fd ∷ []) ++ apply_command command c.pid,
      )
]

-- `for (size_t i = count; i > 0; i--)`
unfoldable pub serve_clients : (ℕ → Option Recv) → ℕ → Service → Service × List Output
serve_clients ready zero s = (s, [])
serve_clients ready (suc i) s =
    let (s', outputs) = serve_client i (ready i) s in
    let (s'', more) = serve_clients ready i s' in (s'', outputs ++ more)

-- A late client learns the resolution of the head unit, if there is one.
abbrev pub greet : Network → Client → Service → List Output
greet net c s =
    if not (s.screen_width == 0) && not (s.screen_height == 0)
    then send_to_client net c (screen_message s.screen_width s.screen_height)
    else []

-- The part of `messaging_service_accept` after a successful `accept4`. `active_pid` and `count` are
-- what the video receiver says.
unfoldable pub accept_fd : Network → ℕ → ℕ → ℕ → ℕ → Service → Service × List Output
accept_fd net fd pid active_pid count s =
    let c : Client = record { fd = fd; pid = pid; rx = [] } in
    let s' : Service = record s { clients = s.clients ++ (c ∷ []) } in
    if ltb (length s.clients) max_clients
    then (s', greet net c s ++ notify_sources net active_pid active_pid count active_pid s')
    else (s, closes fd ∷ [])

abbrev pub accept_error : Errno → List Output
accept_error eintr = []
accept_error eagain = []
accept_error e = sleeps 100000 ∷ []

-- `getsockopt`, or pid 0.
abbrev pub peer_pid : Outcome ℕ → ℕ
peer_pid (done pid) = pid
peer_pid (failed e) = 0

unfoldable pub accept : Network → Outcome ℕ → Outcome ℕ → ℕ → ℕ → Service → Service × List Output
accept net (failed e) credentials active_pid count s = (s, accept_error e)
accept net (done fd) credentials active_pid count s =
    accept_fd net fd (peer_pid credentials) active_pid count s

-- One round of `messaging_service_handle_clients` after `poll`: the clients with something to read,
-- and a connection that waits.
unfoldable pub handle_clients :
    Network
    → (ℕ → Option Recv)
    → Option (Outcome ℕ × Outcome ℕ)
    → ℕ
    → ℕ
    → Service
    → Service × List Output
handle_clients net ready none active_pid count s = serve_clients ready (length s.clients) s
handle_clients net ready (some (fd, credentials)) active_pid count s =
    let (s', outputs) = serve_clients ready (length s.clients) s in
    let (s'', more) = accept net fd credentials active_pid count s' in (s'', outputs ++ more)
