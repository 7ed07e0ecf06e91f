-- ===== src/Lib.antt =====
-- QDPlay shows the screens of video sources (a launcher, a projected phone) on a car head unit.
-- A source connects to a local socket and sends H.264 frames; the video receiver chooses the source
-- that has the screen and passes its frames to the accessory session, which wraps them in messages of
-- the head unit's protocol and writes them to a USB device. Touches of the head unit go back to the
-- process that has the screen.
--
-- The files, and the code that they model:
--   Prelude, Prelude/Tests, Prelude/Lists: names of the library passed on, Boolean tests of numbers,
--     lists measured by native numbers.
--   Posix: the outcomes of system calls. Words: unsigned arithmetic and big-endian fields.
--   VideoReceiver: src/services/video_receiver/video_receiver.c. `State` is `video_receiver_state_t`
--     without its thread, lock and listening socket; an operation under the mutex is one function from
--     state to state, with the calls it makes outside as a list of `Effect`.
--       Sources: video_receiver_request_active, _yield, _switch_to_previous, _accept, _remove_source
--         and the choice of the active source; its children prove what these keep (Inv), what any
--         history of them keeps (History) and who has the screen afterwards (Switch).
--       Keyframe: video_receiver_is_keyframe. Frames: video_receiver_handle_frame, with the key frame
--         gate in Frames/Gate.
--       Stream: video_receiver_read_source. What `recv` returns is a list of outcomes. Framing and
--         Delivery relate it to what a source sends.
--       Thread: a round of video_receiver_processing_thread after `poll`.
--   MessagingService: src/services/messaging_service/messaging_service.c. `Service` is
--     `messaging_service_state_t` with the last resolution. Events: messaging_service_send and the events
--     that use it, routed to the active process; Clients: messaging_service_read_client, _accept and a
--     round of _handle_clients, which asks the video receiver for the screen.
--   Accessory: src/usb_accessory/usb_active_accessory.c. `Session` is the part of `session_t` that reads
--     and writes use. Read: usb_active_accessory_read and _read_message_tail; Write: write_all_locked,
--     usb_active_accessory_write and _write_with_padding_512; Watchdog: a turn of watchdog_thread. What
--     the driver answers is a list; behind its end a read
--     finds the session stopped, and a write fails with EIO.
--   Processor: what the protocols share. `Io` is a function of `message_processor_t`: with the driver's
--     answers and the session (`Port`) it gives a result, the calls that it makes and the port
--     afterwards. Calls: what holds of all calls; Progress, Draining: which bytes of the driver it takes.
--   Struct: the packed structures, as stores of fields at offsets into the bytes of a buffer.
--   MessagesV1: the initialisers of src/messages/v1/. ProcessorV1:
--     src/usb_accessory/message_processor/v1/message_processor_v1.c, the answers, with message_processor_v1
--     _probe, _run and the handlers in Handlers and _write_h264 in Frame. Padding, Safe and Drained have
--     the proofs.
--   Json: what the program uses of cJSON, a record of operations. MessagesV2: the builders and parsers of
--     src/messages/v2/. Touch: src/messages/v2/message_touch_event_v2.c. Float32: C's comparison and
--     conversion of floats, which are kept as their 32 bits. ProcessorV2:
--     src/usb_accessory/message_processor/v2/message_processor_v2.c: _read_message (Message),
--     _handle_touch (Gesture), _probe, _run, the handlers, _write_hb and _write_h264 (Handlers). `none`,
--     or the call `undefined`, stands where C leaves its behaviour undefined.
--   RunSession: the rest of src/usb_accessory/usb_active_accessory.c: open_device, probe_protocol, the
--     session's loop, and usb_active_accessory_run_session (Run), which works with any list of
--     processors; Processors has the two protocols.
--   Mirror: usb_active_accessory_write_h264, and a frame's way from a source's socket to the messages that
--     the head unit reads.
--   Worker: src/usb_accessory/usb_accessory_worker.c. The result of a session is an answer there.
--   Gadget: src/usb_accessory/usb_accessory.c, the USB gadget, with libusbgx as a parameter.
--   VideoSender: the message that video-sender/qd_video_sender.c builds for a frame.
--   Crc16: src/utils/crc16.c. HuMessage: src/hu_message.c and src/utils/common_utils.c.
--   The files named Tests apply the theorems to concrete inputs.
--
-- Bounds and fuel: the priorities are `uint64_t` and wrap; the theorems ask for room below 2^64, which
-- fewer than 2^61 calls leave. The loop over the frames of a buffer has a frame's header at least for
-- each turn, so as much fuel as the buffer has bytes is enough. The loop that reads the rest of a
-- message adds a byte at each turn, so its fuel is the required length. The loop of a session takes a
-- byte at least or counts an error at each turn, so twenty turns for each byte that the driver has, and
-- twenty more, are enough. The first message of the phone is repeated once at most for each answer of the
-- driver. Clocks, memory, what memory holds before it is written to, and the results of system calls are
-- arguments.
--
-- Not modelled: the threads of a session together (the watchdog is modelled on its own, and what it does
-- to a session is seen in the session's reads); the uevents of the worker, which only shorten its wait;
-- the set-up of sockets, which is I/O without logic of its own; the client
-- libraries but for the message of a frame; logging; and cJSON, which is another project's library.
pub mod Prelude
pub mod Posix
pub mod Words
pub mod Struct
pub mod VideoReceiver
pub mod VideoSender
pub mod MessagingService
pub mod Float32
pub mod Touch
pub mod Accessory
pub mod Processor
pub mod MessagesV1
pub mod ProcessorV1
pub mod Json
pub mod MessagesV2
pub mod ProcessorV2
pub mod RunSession
pub mod Mirror
pub mod Gadget
pub mod Worker
pub mod Crc16
pub mod HuMessage
