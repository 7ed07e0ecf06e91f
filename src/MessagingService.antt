-- ===== src/MessagingService.antt =====
-- src/services/messaging_service/messaging_service.c: the clients that get events from the head unit
-- and ask for the screen. The children hold the sending of events (`Events`) and what clients send
-- (`Clients`).
pub mod Events
pub mod Clients
pub mod Tests
use qdplay.Prelude.{ℕ, Bool, List}

abbrev pub max_clients : ℕ
max_clients = 8

abbrev pub rx_buffer_size : ℕ
rx_buffer_size = 64

-- `messaging_service_client_t`: `rx` is the filled part of its buffer.
pub record Client : Type 0 where
  pub fd : ℕ
  pub pid : ℕ
  pub rx : List ℕ

-- `messaging_service_state_t` without its thread, lock and listening socket, with the last resolution
-- of the head unit. `clients` is the used part of the array.
pub record Service : Type 0 where
  pub clients : List Client
  pub screen_width : ℕ
  pub screen_height : ℕ

-- What is done outside: `sends fd data` is the call of `send`, `requests_active` and `yields_screen`
-- are calls of the video receiver.
pub data Output : Type 0 where
  sends : ℕ → List ℕ → Output
  shuts_down : ℕ → Output
  closes : ℕ → Output
  sleeps : ℕ → Output
  requests_active : ℕ → Output
  yields_screen : ℕ → Output

-- Whether the client on a descriptor takes the whole of a message at once.
abbrev pub Network : Type 0
Network = ℕ → List ℕ → Bool
