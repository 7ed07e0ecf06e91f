-- ===== src/MessagesV2/Split.antt =====
-- What is sent is a message that `message_processor_v2_read_message` would take apart.
use mathlib.Core.List.{append_assoc}
use qdplay.Prelude.{
  ℕ, ◌+◌, ◌-◌, ◌≡◌, ◌≤◌, ◌<◌, refl, sym, ◌∙◌, ap, subst, Bool, true, false, some, List, [], ◌∷◌,
  ◌++◌, length, get_or, take, drop, replicate, ltb, arith, get_or-append, take-append_length,
  drop-append_length, length-append,
}
use qdplay.Words.{be32_at, be16_at, be32_bytes}
use qdplay.Struct.{u32, fill}
use qdplay.Struct.Bytes.{length-fill, get_or-fill}
use qdplay.MessagesV1.WellFormed.{be32_at-fill}
use qdplay.MessagesV2.{json_message, json_fields, video_header, message_video_frame_v2_init}
use qdplay.Accessory.{Session}
use qdplay.Accessory.Read.{Reading}
use qdplay.ProcessorV2.Message.{
  Message, header_len, max_message_size, has_mark, is_bad_size, split_message, read_message,
}

-- The header's fields, read from the whole message, are those of the header.
be32_at-append :
    (header rest : List ℕ) (i : ℕ)
    → i + 3 < length header
    → be32_at (header ++ rest) i ≡ be32_at header i
be32_at-append header rest i room =
    rw
      (
        get_or-append header rest i 0 (omega arith),
        get_or-append header rest (i + 1) 0 (omega arith),
        get_or-append header rest (i + 2) 0 (omega arith),
        get_or-append header rest (i + 3) 0 (omega arith),
      )
      refl

-- The protocol's own reader takes a message from its buffer when the mark and the declared length are
-- good and all of it is there, whatever the memory, the driver and the session do.
abbrev pub Accepts : Message → List ℕ → Type 0
Accepts m bytes =
    (memory : ℕ → Bool) (capacity : ℕ) (rs : List Reading) (s : Session)
    → (read_message memory bytes capacity rs s).0 ≡ some m

read_message-Accepts :
    (bytes : List ℕ) (m : Message)
    → has_mark bytes ≡ true
    → be32_at bytes 4 ≤ length bytes
    → header_len ≤ be32_at bytes 4
    → be32_at bytes 4 ≤ max_message_size
    → split_message bytes ≡ some m
    → Accepts m bytes
unfolding read_message
read_message-Accepts bytes m mark whole long short split memory capacity rs s =
    let head : ltb (length bytes) header_len ≡ false = ground arith in
    let size : is_bad_size (be32_at bytes 4) ≡ false = ground arith in
    let there : ltb (length bytes) (be32_at bytes 4) ≡ false = ground arith in
    rw (head, mark, size, there, read_message) split

has_mark-append :
    (header rest : List ℕ) → 4 ≤ length header → has_mark (header ++ rest) ≡ has_mark header
has_mark-append header rest room =
    rw
      (
        get_or-append header rest 0 0 (omega arith),
        get_or-append header rest 1 0 (omega arith),
        get_or-append header rest 2 0 (omega arith),
        get_or-append header rest 3 0 (omega arith),
      )
      refl

-- A message with such a header, an extended header of so many bytes and a payload is taken apart.
pub split_message-append :
    (header payload padding : List ℕ) (ext msg_type source format : ℕ)
    → length header ≡ 16 + ext
    → be32_at header 4 ≡ 16 + ext + length payload
    → be16_at header 8 ≡ ext
    → get_or header 10 0 ≡ msg_type
    → get_or header 11 0 ≡ source
    → get_or header 13 0 ≡ format
    → split_message (header ++ (payload ++ padding))
      ≡ some (record {
        msg_type = msg_type;
        source = source;
        payload_format = format;
        payload = payload;
      })
unfolding split_message
split_message-append header payload padding ext msg_type source format size total ext_size t s f =
    let rest = payload ++ padding in
    let total' : be32_at (header ++ rest) 4 ≡ 16 + ext + length payload =
      be32_at-append header rest 4 (omega (arith, size)) ∙ total in
    let ext' : be16_at (header ++ rest) 8 ≡ ext =
      rw
        (
          get_or-append header rest 8 0 (omega (arith, size)),
          get_or-append header rest 9 0 (omega (arith, size)),
        )
        ext_size in
    let enough : ltb (16 + ext + length payload - 16) ext ≡ false = ground arith in
    let left : 16 + ext + length payload - 16 - ext ≡ length payload = omega arith in
    let front : drop (16 + ext) (header ++ rest) ≡ rest =
      ap (λ n. drop n (header ++ rest)) (sym size) ∙ drop-append_length header rest in
    let whole : take (length payload) rest ≡ payload = take-append_length payload padding in
    let t' : get_or (header ++ rest) 10 0 ≡ msg_type =
      get_or-append header rest 10 0 (omega (arith, size)) ∙ t in
    let s' : get_or (header ++ rest) 11 0 ≡ source =
      get_or-append header rest 11 0 (omega (arith, size)) ∙ s in
    let f' : get_or (header ++ rest) 13 0 ≡ format =
      get_or-append header rest 13 0 (omega (arith, size)) ∙ f in
    rw (total', ext', enough, left, front, whole, t', s', f', split_message) refl

-- With the mark, and as long as a message may be, it is read.
read_message-append :
    (header payload padding : List ℕ) (ext msg_type source format : ℕ)
    → has_mark header ≡ true
    → length header ≡ 16 + ext
    → be32_at header 4 ≡ 16 + ext + length payload
    → be16_at header 8 ≡ ext
    → get_or header 10 0 ≡ msg_type
    → get_or header 11 0 ≡ source
    → get_or header 13 0 ≡ format
    → 16 + ext + length payload ≤ max_message_size
    → Accepts
        (record {
          msg_type = msg_type;
          source = source;
          payload_format = format;
          payload = payload;
        })
        (header ++ (payload ++ padding))
read_message-append header payload padding ext msg_type source format mark size total ext_size t s f
      short =
    let bytes = header ++ (payload ++ padding) in
    let total' : be32_at bytes 4 ≡ 16 + ext + length payload =
      be32_at-append header (payload ++ padding) 4 (omega (arith, size)) ∙ total in
    let len : length bytes ≡ 16 + ext + length payload + length padding =
      omega
        (arith, length-append header (payload ++ padding), length-append payload padding, size) in
    read_message-Accepts bytes _
      (has_mark-append header (payload ++ padding) (omega (arith, size)) ∙ mark)
      (omega (arith, total', len)) (omega (arith, total')) (omega (arith, total', short))
      (split_message-append header payload padding ext msg_type source format size total ext_size t
        s f)

-- A JSON message is read as the text that it was made of.
pub read_message-json_message :
    (json padding : List ℕ)
    → 16 + length json ≤ max_message_size
    → Accepts
        (record { msg_type = 0; source = 0; payload_format = 1; payload = json })
        (json_message json ++ padding)
read_message-json_message json padding small =
    let fields = json_fields (16 + length json) in
    let blank : List ℕ = replicate 16 0 in
    let header = fill fields blank in
    let m : Message = record { msg_type = 0; source = 0; payload_format = 1; payload = json } in
    subst (Accepts m) (sym (append_assoc header json padding)) (
      read_message-append header json padding 0 0 0 1
        (rw
          (
            get_or-fill fields blank 0 (omega arith),
            get_or-fill fields blank 1 (omega arith),
            get_or-fill fields blank 2 (omega arith),
            get_or-fill fields blank 3 (omega arith),
          )
          refl)
        (length-fill fields blank)
        (be32_at-fill fields blank 4 (omega arith)
          ∙ be32_bytes (16 + length json) (omega (arith, small)))
        (rw (get_or-fill fields blank 8 (omega arith), get_or-fill fields blank 9 (omega arith))
          refl)
        (get_or-fill fields blank 10 (omega arith)) (get_or-fill fields blank 11 (omega arith))
        (get_or-fill fields blank 13 (omega arith)) small)

-- A frame's message is read as the frame.
pub read_message-video_header :
    (width height framerate : ℕ) (frame padding : List ℕ)
    → length frame + 48 ≤ max_message_size
    → Accepts
        (record { msg_type = 1; source = 0; payload_format = 2; payload = frame })
        (video_header width height framerate (length frame) ++ (frame ++ padding))
read_message-video_header width height framerate frame padding small =
    let fields =
      message_video_frame_v2_init width height framerate ++ (u32 4 (length frame + 48) ∷ []) in
    let blank : List ℕ = replicate 48 0 in
    let header = fill fields blank in
    read_message-append header frame padding 32 1 0 2
      (rw
        (
          get_or-fill fields blank 0 (omega arith),
          get_or-fill fields blank 1 (omega arith),
          get_or-fill fields blank 2 (omega arith),
          get_or-fill fields blank 3 (omega arith),
        )
        refl)
      (length-fill fields blank)
      (be32_at-fill fields blank 4 (omega arith)
        ∙ be32_bytes (length frame + 48) (omega (arith, small))
        ∙ omega arith)
      (rw (get_or-fill fields blank 8 (omega arith), get_or-fill fields blank 9 (omega arith)) refl)
      (get_or-fill fields blank 10 (omega arith)) (get_or-fill fields blank 11 (omega arith))
      (get_or-fill fields blank 13 (omega arith)) (omega (arith, small))
