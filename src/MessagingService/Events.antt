-- ===== src/MessagingService/Events.antt =====
-- messaging_service.c: the events for the clients and their routing.
pub mod Routing
use qdplay.Prelude.{
  ℕ, ◌+◌, Bool, true, false, not, ◌&&◌, ◌||◌, List, [], ◌∷◌, ◌++◌, length, ltb, ◌==◌, if◌then◌else◌,
}
use qdplay.Words.{put_be16, put_be32}
use qdplay.VideoReceiver.{service_mark}
use qdplay.MessagingService.{Client, Service, Output, sends, shuts_down, Network}

-- The parcel's header with its payload.
abbrev pub put_parcel : ℕ → List ℕ → List ℕ
put_parcel event_id payload =
    put_be32 service_mark
      (put_be32 event_id (put_be32 (16 + length payload) (put_be32 (length payload) payload)))

abbrev pub key_frame_message : List ℕ
key_frame_message = put_parcel 1 []

abbrev pub input_message : ℕ → ℕ → ℕ → List ℕ
input_message action x y = put_parcel 2 (put_be16 action (put_be16 x (put_be16 y [])))

abbrev pub active_message : Bool → ℕ → List ℕ
active_message active sources_count =
    put_parcel 4
      ((if active then 1 else 0) ∷ (if ltb 255 sources_count then 255 else sources_count) ∷ [])

-- `messaging_service_fill_screen_info`
abbrev pub screen_message : ℕ → ℕ → List ℕ
screen_message width height = put_parcel 6 (put_be16 width (put_be16 height []))

-- `messaging_service_send_to_client`: a client that does not take the whole message is shut down.
abbrev pub send_to_client : Network → Client → List ℕ → List Output
send_to_client net c bytes =
    if net c.fd bytes then sends c.fd bytes ∷ [] else sends c.fd bytes ∷ shuts_down c.fd ∷ []

-- `messaging_service_route_t`
pub data Route : Type 0 where
  route_all route_active_or_all route_pid_only : Route

-- `route != MESSAGING_SERVICE_ROUTE_ALL && pid != 0`
abbrev pub is_addressed : Route → ℕ → Bool
is_addressed route_all pid = false
is_addressed r pid = not (pid == 0)

-- The loop over the clients of a process, with `delivered`.
unfoldable pub send_to_pid : Network → ℕ → List ℕ → List Client → List Output × Bool
send_to_pid net pid bytes [] = ([], false)
send_to_pid net pid bytes (c ∷ cs) =
    let (outputs, delivered) = send_to_pid net pid bytes cs in
    if c.pid == pid then (send_to_client net c bytes ++ outputs, true) else (outputs, delivered)

-- The loop over all clients.
unfoldable pub send_to_all : Network → List ℕ → List Client → List Output
send_to_all net bytes [] = []
send_to_all net bytes (c ∷ cs) = send_to_client net c bytes ++ send_to_all net bytes cs

abbrev pub goes_to_all : Route → Bool
goes_to_all route_pid_only = false
goes_to_all r = true

-- `messaging_service_send`
unfoldable pub send : Network → Route → ℕ → List ℕ → List Client → List Output
send net route pid bytes clients =
    let addressed = is_addressed route pid in
    let (outputs, found) = send_to_pid net pid bytes clients in
    (if addressed then outputs else [])
    ++ (if not (addressed && found) && goes_to_all route then send_to_all net bytes clients else [])

-- `messaging_service_send_key_frame_req` and `messaging_service_send_input_event`, with what
-- `video_receiver_active_pid` returns.
unfoldable pub send_key_frame_req : Network → ℕ → Service → List Output
send_key_frame_req net active_pid s =
    send net route_active_or_all active_pid key_frame_message s.clients

unfoldable pub send_input_event : Network → ℕ → ℕ → ℕ → ℕ → Service → List Output
send_input_event net active_pid action x y s =
    send net route_active_or_all active_pid (input_message action x y) s.clients

-- Every client learns whether it is on screen.
unfoldable pub notify_each : Network → ℕ → ℕ → List Client → List Output
notify_each net new_pid count [] = []
notify_each net new_pid count (c ∷ cs) =
    send_to_client net c (active_message (not (new_pid == 0) && c.pid == new_pid) count)
    ++ notify_each net new_pid count cs

-- `messaging_service_notify_sources`
unfoldable pub notify_sources : Network → ℕ → ℕ → ℕ → ℕ → Service → List Output
notify_sources net old_pid new_pid count active_pid s =
    notify_each net new_pid count s.clients
    ++ (if not (new_pid == 0) && not (new_pid == old_pid)
        then send_key_frame_req net active_pid s
        else [])

-- `messaging_service_set_screen_size`
unfoldable pub set_screen_size : Network → ℕ → ℕ → Service → Service × List Output
set_screen_size net width height s =
    let s' : Service = record s { screen_width = width; screen_height = height } in
    (s', send net route_all 0 (screen_message width height) s'.clients)
