-- ===== src/MessagingService/Tests.antt =====
-- The theorems about the messaging service applied to concrete clients.
use qdplay.Prelude.{
  ℕ, ◌≡◌, ◌≢◌, inl, refl, true, false, Option, some, List, [], ◌∷◌, ◌++◌, arith, ◌==◌,
  if◌then◌else◌,
}
use qdplay.Posix.{done}
use qdplay.MessagingService.{Client, Service, Network}
use qdplay.MessagingService.Events.{route_active_or_all, send, key_frame_message}
use qdplay.MessagingService.Events.Routing.{
  sent_of, clients_of, to_each, sent_of-send, sent_of-send_all,
}
use qdplay.MessagingService.Clients.{Recv, received, closed, read_client, handle_clients}
use qdplay.MessagingService.Clients.Inv.{Inv, handle_clients-Inv}
use qdplay.MessagingService.Clients.Framing.{
  Parcel, put_client_parcels, last_command, read_client-put_client_parcels,
}

abbrev launcher : Client
launcher = record { fd = 5; pid = 100; rx = [] }

-- Two bytes of its next parcel are there.
abbrev phone : Client
phone = record { fd = 6; pid = 200; rx = 0xFA ∷ 0xFA ∷ [] }

abbrev service : Service
service = record { clients = launcher ∷ phone ∷ []; screen_width = 800; screen_height = 480 }

-- The launcher does not read.
abbrev network : Network
network fd bytes = if fd == 5 then false else true

phone_only : clients_of 200 service.clients ≢ []
unfolding clients_of
phone_only = λ e. cc

sent_of-send_example :
    sent_of (send network route_active_or_all 200 key_frame_message service.clients)
    ≡ to_each key_frame_message (clients_of 200 service.clients)
sent_of-send_example =
    sent_of-send network 200 key_frame_message service.clients (λ e. absurd (omega arith))
      phone_only

sent_of-send_all_example :
    sent_of (send network route_active_or_all 0 key_frame_message service.clients)
    ≡ to_each key_frame_message (launcher ∷ phone ∷ [])
sent_of-send_all_example = sent_of-send_all network 0 key_frame_message service.clients (inl refl)

service-Inv : Inv service
service-Inv = record { count = omega arith; rooms = (omega arith, (omega arith, tt)) }

-- The phone sends some bytes, the launcher leaves, and another client connects.
abbrev ready : ℕ → Option Recv
ready i = if i == 0 then some closed else some (received (0xFA ∷ []))

handle_clients-Inv_example :
    Inv (handle_clients network ready (some (done 7, done 300)) 200 2 service).0
handle_clients-Inv_example =
    handle_clients-Inv network ready (some (done 7, done 300)) 200 2 service service-Inv

-- A request of the screen, and the first two bytes of the next parcel.
abbrev request : Parcel
request = record { event_id = 5; payload = 1 ∷ [] }

abbrev request_bytes : List ℕ
request_bytes = 0xFA ∷ 0xFA ∷ 0 ∷ 0 ∷ 0 ∷ 5 ∷ 0 ∷ 0 ∷ 0 ∷ 17 ∷ 0 ∷ 0 ∷ 0 ∷ 1 ∷ 1 ∷ 0xFA ∷ 0xFA ∷ []

request_whole : phone.rx ++ request_bytes ≡ put_client_parcels (request ∷ []) (0xFA ∷ 0xFA ∷ [])
unfolding put_client_parcels
request_whole = refl

read_client-put_client_parcels_example :
    read_client phone (received request_bytes)
    ≡ (true, record phone { rx = 0xFA ∷ 0xFA ∷ [] }, last_command (request ∷ []) 0)
read_client-put_client_parcels_example =
    read_client-put_client_parcels phone request_bytes (request ∷ []) (0xFA ∷ 0xFA ∷ [])
      (omega arith) (omega arith) (record { event_id = omega arith; fits = omega arith }, tt)
      (inl (omega arith)) request_whole
