-- ===== src/MessagesV1.antt =====
-- src/messages/v1/: the initialisers of the packed structures of the legacy protocol, over the memory
-- that is given to them. Each stores its fields at the offsets of inc/messages/v1/.
pub mod WellFormed
use qdplay.Prelude.{ℕ, Bool, ◌&&◌, List, [], ◌∷◌, ◌++◌, get_or, replicate, ◌==◌}
use qdplay.Struct.{Field, u32}

-- inc/macros/data_types.h
abbrev pub data_type_cmd : ℕ
data_type_cmd = 0

abbrev pub data_type_screen_capture : ℕ
data_type_screen_capture = 1

abbrev pub data_type_hu_msg : ℕ
data_type_hu_msg = 3

abbrev pub data_type_in_app_control : ℕ
data_type_in_app_control = 10

abbrev pub data_type_speech_status : ℕ
data_type_speech_status = 12

-- inc/macros/comand_types.h
abbrev pub cmd_app_status : ℕ
cmd_app_status = 1

abbrev pub cmd_version : ℕ
cmd_version = 3

abbrev pub cmd_land_mode : ℕ
cmd_land_mode = 5

abbrev pub cmd_heartbeat : ℕ
cmd_heartbeat = 10

abbrev pub cmd_play_status : ℕ
cmd_play_status = 12

abbrev pub cmd_upgrade : ℕ
cmd_upgrade = 13

abbrev pub cmd_mirror_support : ℕ
cmd_mirror_support = 16

abbrev pub cmd_key_frame_req : ℕ
cmd_key_frame_req = 17

-- `MESSAGE_BINARY_HEADER`
abbrev pub binary_mark : Field
binary_mark = (0, b'!' ∷ b'B' ∷ b'I' ∷ b'N' ∷ [])

-- `memcmp(header->binary_mark, MESSAGE_BINARY_HEADER, MESSAGE_BINARY_HEADER_LEN) == 0`
abbrev pub has_binary_mark : List ℕ → Bool
has_binary_mark bytes =
    get_or bytes 0 0 == b'!'
    && get_or bytes 1 0 == b'B'
    && get_or bytes 2 0 == b'I'
    && get_or bytes 3 0 == b'N'

-- `common_header.mark`: the bytes from 32 to 63.
abbrev pub mark : Field
mark = (
  32,
  32 ∷ 33 ∷ 34 ∷ 35 ∷ 36 ∷ 37 ∷ 38 ∷ 39 ∷ 40 ∷ 41 ∷ 42 ∷ 43 ∷ 44 ∷ 45 ∷ 46 ∷ 47 ∷ 48 ∷ 49 ∷ 50 ∷ 51
      ∷ 52 ∷ 53 ∷ 54 ∷ 55 ∷ 56 ∷ 57 ∷ 58 ∷ 59 ∷ 60 ∷ 61 ∷ 62 ∷ 63 ∷ [],
)

-- The sizes of the common header, and of the headers of a request and a response.
abbrev pub sizes : ℕ → ℕ → List Field
sizes request response = u32 16 64 ∷ u32 20 request ∷ u32 24 response ∷ []

abbrev pub total_size : ℕ → Field
total_size = u32 8

abbrev pub action : ℕ → Field
action = u32 28

abbrev pub cmd : ℕ → Field
cmd = u32 68

-- The initialisers: the stores of each, in turn. `fill` applies them to the memory.
abbrev pub app_message_response_init : List Field
app_message_response_init =
    binary_mark
    ∷ u32 4 data_type_hu_msg
    ∷ u32 12 512
    ∷ total_size 512
    ∷ (sizes 64 0 ++ (action 2 ∷ mark ∷ []))

abbrev pub app_status_response_init : List Field
app_status_response_init =
    binary_mark
    ∷ u32 4 data_type_cmd
    ∷ u32 12 512
    ∷ total_size 512
    ∷ (sizes 128 128
        ++ (action 2 ∷ u32 64 0 ∷ cmd cmd_app_status ∷ u32 72 1 ∷ u32 76 24 ∷ u32 80 2 ∷ mark ∷ []))

-- It clears its structure, of 196 bytes, first.
abbrev pub heart_beat_v1_init : List Field
heart_beat_v1_init =
    (0, replicate 196 0)
    ∷ binary_mark
    ∷ u32 4 data_type_cmd
    ∷ u32 12 512
    ∷ total_size 512
    ∷ (sizes 128 128 ++ (action 1 ∷ cmd cmd_heartbeat ∷ u32 72 1 ∷ u32 192 1 ∷ mark ∷ []))

-- It sets neither an action nor a command.
abbrev pub land_mode_response_init : List Field
land_mode_response_init =
    binary_mark
    ∷ u32 4 data_type_cmd
    ∷ u32 12 512
    ∷ total_size 512
    ∷ (sizes 128 128 ++ (u32 64 0 ∷ u32 72 1 ∷ mark ∷ []))

abbrev pub mirror_support_response_init : List Field
mirror_support_response_init =
    binary_mark
    ∷ u32 4 data_type_cmd
    ∷ u32 12 512
    ∷ total_size 512
    ∷ (sizes 128 128
        ++ (action 1 ∷ u32 64 0 ∷ cmd cmd_mirror_support ∷ u32 192 1 ∷ u32 72 0 ∷ mark ∷ []))

-- `ntohl(12)` is the data type.
abbrev pub speech_response_init : List Field
speech_response_init =
    binary_mark
    ∷ u32 4 data_type_speech_status
    ∷ u32 12 512
    ∷ total_size 512
    ∷ (sizes 16 16 ++ (action 0 ∷ u32 64 1 ∷ u32 68 16000 ∷ u32 72 1 ∷ u32 76 16 ∷ mark ∷ []))

abbrev pub upgrade_response_init : List Field
upgrade_response_init =
    binary_mark
    ∷ u32 4 data_type_cmd
    ∷ u32 12 512
    ∷ total_size 512
    ∷ (sizes 128 128 ++ (action 2 ∷ u32 64 0 ∷ cmd cmd_upgrade ∷ u32 72 5 ∷ mark ∷ []))

abbrev pub version_response_init : List Field
version_response_init =
    binary_mark
    ∷ u32 4 data_type_cmd
    ∷ u32 12 512
    ∷ total_size 512
    ∷ (sizes 128 128 ++ (action 1 ∷ cmd cmd_version ∷ u32 192 24 ∷ mark ∷ []))

-- `SCREEN_HEADER_VIDEO_FORMAT_H264`
abbrev pub video_format_h264 : ℕ
video_format_h264 = 3

-- `qd_screen_header_h264_response_init`: the total size is left to the caller.
abbrev pub qd_screen_header_h264_response_init : ℕ → ℕ → ℕ → ℕ → List Field
qd_screen_header_h264_response_init width height frame_rate frame_interval =
    binary_mark
    ∷ u32 4 data_type_screen_capture
    ∷ u32 12 512
    ∷ (sizes 128 128
        ++ (action 1
            ∷ u32 64 width
            ∷ u32 68 height
            ∷ u32 72 4
            ∷ u32 76 2
            ∷ u32 80 video_format_h264
            ∷ u32 84 0
            ∷ u32 88 1
            ∷ u32 96 0
            ∷ u32 100 width
            ∷ u32 104 height
            ∷ u32 108 0
            ∷ u32 112 0
            ∷ u32 116 width
            ∷ u32 120 height
            ∷ u32 124 0
            ∷ u32 128 0
            ∷ u32 132 video_format_h264
            ∷ u32 136 90
            ∷ u32 140 90
            ∷ u32 144 0
            ∷ u32 148 width
            ∷ u32 152 height
            ∷ u32 156 0
            ∷ u32 160 0
            ∷ u32 164 0
            ∷ u32 168 0
            ∷ u32 172 0
            ∷ u32 176 0
            ∷ u32 180 frame_rate
            ∷ u32 184 0
            ∷ u32 188 frame_interval
            ∷ u32 192 frame_rate
            ∷ u32 196 0
            ∷ u32 200 frame_interval
            ∷ u32 204 1
            ∷ mark
            ∷ []))
