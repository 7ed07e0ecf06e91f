-- ===== src/Mirror/Shown.antt =====
-- The frames of the source that has the screen reach the head unit.
use qdplay.Prelude.{
  ℕ, ◌+◌, ◌≡◌, ◌≤◌, refl, sym, ◌∙◌, ap, true, false, some, List, [], ◌∷◌, ◌++◌, Option, map, length,
  ltb, ◌==◌, if◌then◌else◌, All, arith,
}
use mathlib.Core.List.{append-nil, append_assoc, flatten}
use qdplay.Posix.{Outcome, failed, enotconn}
use qdplay.VideoReceiver.{Source, State, Effect, socket_rcv_buffer_size, initial_buffer_size}
use qdplay.VideoSender.{Sent, full_len}
use qdplay.VideoReceiver.Stream.{Allocator, received, read_loop}
use qdplay.VideoReceiver.Stream.Framing.{put_frames, forward_frame, forward_frames}
use qdplay.VideoReceiver.Stream.Chunks.{IsSmall}
use qdplay.VideoReceiver.Stream.Delivery.{Ready, read_loop-pieces}
use qdplay.Accessory.{Session}
use qdplay.Accessory.Write.{}
use qdplay.Accessory.Write.Fields.{stopping-IsUntouched, write_with_padding_512-field}
use qdplay.MessagesV2.{video_header}
use qdplay.Processor.{Env, Call, writes, Port, MessageProcessor}
use qdplay.Json.{JsonLibrary}
use qdplay.ProcessorV2.Message.{Message, read_message}
use qdplay.ProcessorV2.Handlers.{message_processor_v2, write_h264}
use qdplay.ProcessorV2.Video.{write_h264-IsMessageOf}
use qdplay.Mirror.{send_frame, send_frames}

-- The source's process has the screen, the head unit wants video, and no key frame is waited for.
pub record IsShown (pid : ℕ) (st : State) : Type 0 where
  pub wanted : st.sink_active ≡ true
  pub active : st.active_pid ≡ pid
  pub started : st.awaiting_keyframe ≡ false

abbrev to_effect : Sent → Effect
to_effect f = Effect.write_h264 f.params f.unit

forward_frame-IsShown :
    (pid now : ℕ) (f : Sent) (st : State)
    → IsShown pid st
    → 1 ≤ length f.unit
    → forward_frame pid now f st ≡ (st, to_effect f ∷ [])
forward_frame-IsShown pid now f st shown filled =
    let own : (st.active_pid == pid) ≡ true = ground (arith, shown.active) in
    let more : ltb 0 (length f.unit) ≡ true = ground arith in
    rw (shown.wanted, own, shown.started, more) refl

forward_frames-IsShown :
    (pid : ℕ) (clock : ℕ → ℕ) (offset : ℕ) (fs : List Sent) (st : State) (effects : List Effect)
    → IsShown pid st
    → All (λ (f : Sent). 1 ≤ length f.unit) fs
    → forward_frames pid clock offset fs st effects ≡ (st, effects ++ map to_effect fs)
unfolding forward_frames
forward_frames-IsShown pid clock offset [] st effects shown filled =
    ap (λ es. (st, es)) (sym (append-nil effects))
forward_frames-IsShown pid clock offset (f ∷ fs) st effects shown filled =
    let one : forward_frame pid (clock offset) f st ≡ (st, to_effect f ∷ []) =
      forward_frame-IsShown pid (clock offset) f st shown filled.0 in
    ap
      (λ (r : State × List Effect).
        forward_frames pid clock (offset + full_len f) fs r.0 (effects ++ r.1))
      one
    ∙ forward_frames-IsShown pid clock (offset + full_len f) fs st (effects ++ (to_effect f ∷ []))
        shown filled.1
    ∙ ap (λ es. (st, es)) (append_assoc effects (to_effect f ∷ []) (map to_effect fs))

-- `message_processor_v2_read_message`, with checks of the mark and of the declared length, where the
-- whole message is in the buffer: nothing is read behind it, and no memory is had.
abbrev pub read_buffer : Session → List ℕ → Option Message
read_buffer reader bytes = (read_message (λ n. false) bytes (length bytes) [] reader).0

-- What it makes of each of the messages that are handed to the session.
unfoldable pub messages_seen : Session → List Call → List (Option Message)
messages_seen reader [] = []
messages_seen reader (writes bytes ∷ calls) = read_buffer reader bytes ∷ messages_seen reader calls
messages_seen reader (_ ∷ calls) = messages_seen reader calls

-- A frame as the head unit sees it: video from the phone.
abbrev pub video_message : Sent → Option Message
video_message f = some (record { msg_type = 1; source = 0; payload_format = 2; payload = f.unit })

send_frame-ready :
    (m : MessageProcessor) (f : Sent) (p : Port)
    → p.session.stopping ≡ false
    → send_frame (some m) f.params f.unit p ≡ m.write_h264 f.params f.unit p
send_frame-ready m f p ready =
    ap (λ b. if b then (failed enotconn, [], p) else m.write_h264 f.params f.unit p) ready

-- A frame goes out in one message, and the session is no more stopped than before.
write_h264-video_message :
    (env : Env) (lib : JsonLibrary) (f : Sent) (p : Port)
    → p.session.stopping ≡ false
    → IsSmall f
    → let (_, calls, p') = (message_processor_v2 env lib).write_h264 f.params f.unit p in
      (message : List ℕ) × (calls ≡ writes message ∷ [])
      × ((reader : Session) → read_buffer reader message ≡ video_message f)
      × (p'.session.stopping ≡ false)
unfolding write_h264
write_h264-video_message env lib f p ready small =
    let (message, one, (seen, _)) =
      write_h264-IsMessageOf env lib f.params f.unit p (omega (arith, small.1)) in
    let v = f.params in
    (
      message,
      one,
      (λ reader. seen (λ n. false) (length message) [] reader),
      write_with_padding_512-field (λ s. s.stopping) stopping-IsUntouched env.memory
            (video_header v.width v.height v.frame_rate (length f.unit)) f.unit p.writings env.now
            p.session
          ∙ ready,
    )

send_frames-video_message :
    (env : Env) (lib : JsonLibrary) (reader : Session) (fs : List Sent) (p : Port)
    → p.session.stopping ≡ false
    → All IsSmall fs
    → messages_seen reader
        (send_frames (some (message_processor_v2 env lib)) (map to_effect fs) p).1
      ≡ map video_message fs
unfolding send_frames messages_seen
send_frames-video_message env lib reader [] p ready small = refl
send_frames-video_message env lib reader (f ∷ fs) p ready (small, smalls) =
    let m = message_processor_v2 env lib in
    let (message, one, seen, still) = write_h264-video_message env lib f p ready small in
    let p' : Port = (m.write_h264 f.params f.unit p).2 in
    let rest = send_frames-video_message env lib reader fs p' still smalls in
    let then_rest : List Call → Port → List (Option Message) =
      λ calls q. messages_seen reader (calls ++ (send_frames (some m) (map to_effect fs) q).1) in
    ap (λ (w : Outcome ℕ × List Call × Port). then_rest w.1 w.2) (send_frame-ready m f p ready)
    ∙ ap (λ calls. then_rest calls p') one
    ∙ ap (λ first. first ∷ then_rest [] p') (seen reader)
    ∙ ap (◌∷◌ (video_message f)) rest

-- Let a source have the screen, the head unit want video, no key frame be waited for, and the session
-- not be stopped. However a stream of frames with content is cut into pieces that `recv` returns, the
-- messages that the second protocol hands to the session are exactly these frames in their order: the
-- protocol's own reader, with such a message in its buffer, accepts its mark and its declared length and
-- returns the whole frame, marked as video from the phone. Memory for the source's first buffer can be
-- had, a frame has up to 192 KiB, and a piece as many bytes as the socket buffer.
pub read_loop-messages_seen :
    (alloc : Allocator) (env : Env) (lib : JsonLibrary) (reader : Session) (now : ℕ)
    (pieces : List (List ℕ)) (src : Source) (fs : List Sent) (st : State) (p : Port)
    → alloc initial_buffer_size ≡ true
    → All IsSmall fs
    → All (λ (f : Sent). 1 ≤ length f.unit) fs
    → All (λ piece. length piece ≤ socket_rcv_buffer_size) pieces
    → Ready src
    → src.buffer ++ flatten pieces ≡ put_frames fs []
    → IsShown src.pid st
    → p.session.stopping ≡ false
    → let read = read_loop alloc (map (λ piece. received piece (λ _. now)) pieces) src st [] in
      messages_seen reader (send_frames (some (message_processor_v2 env lib)) read.effects p).1
      ≡ map video_message fs
read_loop-messages_seen alloc env lib reader now pieces src fs st p ok small filled sizes ready
      whole shown on =
    let (_, _, _, handled) =
      read_loop-pieces alloc now pieces src fs st [] ok small sizes ready whole in
    let all = forward_frames-IsShown src.pid (λ _. now) 0 fs st [] shown filled in
    ap (λ es. messages_seen reader (send_frames (some (message_processor_v2 env lib)) es p).1)
      (handled ∙ ap (λ (r : State × List Effect). r.1) all)
    ∙ send_frames-video_message env lib reader fs p on small
