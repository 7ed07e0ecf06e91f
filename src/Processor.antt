-- ===== src/Processor.antt =====
-- What the message processors share: they read and write through the session and call the video
-- receiver and the messaging service.
pub mod Calls
pub mod Progress
pub mod Draining
use qdplay.Prelude.{
  ℕ, zero, suc, Bool, true, false, Option, none, some, List, [], ◌∷◌, ◌++◌, if◌then◌else◌,
}
use qdplay.Posix.{Outcome, done, failed}
use qdplay.VideoReceiver.{VideoParams}
use qdplay.Accessory.{Session}
use qdplay.Accessory.Read.{Reading, Tail, complete, read, read_message_tail}
use qdplay.Accessory.Write.{Writing, write, padded, write_with_padding_512}

-- The driver's answers that are left, the session, the sizes of the buffers that the processors keep
-- for frames and for messages, and whether the gesture that switches sources has fired.
pub record Port : Type 0 where
  pub readings : List Reading
  pub writings : List Writing
  pub session : Session
  pub frame_buffer_size : ℕ
  pub message_buffer_size : ℕ
  pub gesture_fired : Bool

-- Whether a block of a size can be had, what it holds before it is written to, and the time.
pub record Env : Type 0 where
  pub memory : ℕ → Bool
  pub heap : ℕ → List ℕ
  pub now : ℕ

-- The calls that a processor makes: the bytes that it has the session write, those of the video
-- receiver, and the events of the messaging service. `undefined` is no call: C leaves what happens
-- undefined there.
pub data Call : Type 0 where
  writes : List ℕ → Call
  activates : Call
  deactivates : Call
  switches_source : Call
  requests_key_frame : Call
  sends_input : ℕ → ℕ → ℕ → Call
  sets_screen : ℕ → ℕ → Call
  undefined : Call

-- A function of a processor: its result, its calls, and the port afterwards.
abbrev pub Io {ℓ} : Type ℓ → Type ℓ
Io A = Port → A × List Call × Port

abbrev pub return {ℓ} : {A : Type ℓ} → A → Io A
return a p = (a, [], p)

abbrev pub call : Call → Io (Unit {0})
call c p = (tt, c ∷ [], p)

infixl 5 ◌>>=◌ ◌>>◌
abbrev pub ◌>>=◌ {ℓ κ} : {A : Type ℓ} {B : Type κ} → Io A → (A → Io B) → Io B
(io >>= next) p = let (a, cs, p') = io p in let (b, ds, p'') = next a p' in (b, cs ++ ds, p'')

abbrev pub ◌>>◌ {ℓ} : {B : Type ℓ} → Io (Unit {0}) → Io B → Io B
io >> next = io >>= λ _. next

-- `io && next`
abbrev pub and_then : Io Bool → Io Bool → Io Bool
and_then io next = io >>= λ ok. if ok then next else return false

-- The bytes of a read that has some.
abbrev pub bytes_read : Outcome (List ℕ) → Option (List ℕ)
bytes_read (done (b ∷ bs)) = some (b ∷ bs)
bytes_read _ = none

-- `usb_active_accessory_read(...) > 0`
abbrev pub read_some : ℕ → Io (Option (List ℕ))
read_some len p =
    let (r, rs, s) = read len p.readings p.session in
    (bytes_read r, [], record p { readings = rs; session = s })

abbrev pub tail_bytes : Tail → Option (List ℕ)
tail_bytes (complete bytes) = some bytes
tail_bytes _ = none

-- `usb_active_accessory_read_message_tail(...) >= 0`
abbrev pub read_tail : List ℕ → ℕ → ℕ → Io (Option (List ℕ))
read_tail buffer required capacity p =
    let (r, rs, s) = read_message_tail buffer required capacity p.readings p.session in
    (tail_bytes r, [], record p { readings = rs; session = s })

-- `usb_active_accessory_write`
abbrev pub write_bytes : ℕ → List ℕ → Io (Outcome ℕ)
write_bytes now bytes p =
    let (r, _, ws, s) = write bytes p.writings now p.session in
    (r, writes bytes ∷ [], record p { writings = ws; session = s })

-- `usb_active_accessory_write_with_padding_512`
abbrev pub write_padded : Env → List ℕ → List ℕ → Io (Outcome ℕ)
write_padded env header body p =
    let (r, _, ws, s) =
      write_with_padding_512 env.memory header body p.writings env.now p.session in
    (r, writes (padded header body) ∷ [], record p { writings = ws; session = s })

-- `> 0`
abbrev pub is_positive : Outcome ℕ → Bool
is_positive (done (suc n)) = true
is_positive _ = false

abbrev pub reply : ℕ → List ℕ → Io Bool
reply now bytes = write_bytes now bytes >>= λ r. return (is_positive r)

-- `message_processor_t`
pub record MessageProcessor : Type 0 where
  pub probe : List ℕ → Io Bool
  pub run : Io Bool
  pub write_hb : Io Bool
  pub write_h264 : VideoParams → List ℕ → Io (Outcome ℕ)
  pub read_timeout_sec : ℕ
