-- ===== src/MessagesV2.antt =====
-- src/messages/v2/: the messages of the second protocol.
pub mod Texts
pub mod Split
use qdplay.Prelude.{
  ℕ, ◌+◌, ◌^◌, Bool, true, false, not, ◌&&◌, ◌||◌, Option, none, some, List, [], ◌∷◌, ◌++◌, length,
  take, replicate, ◌==◌, if◌then◌else◌,
}
use qdplay.Words.{put_be16}
use qdplay.Struct.{Field, u32, fill}
use qdplay.HuMessage.Codec.{c_string}
use qdplay.Json.{Value, text, number, object, field, end, Number, to_uint, JsonLibrary}
use qdplay.MessagesV2.Texts.{
  cmd_key, para_key, heartbeat_cmd, phone_info_cmd, car_info_cmd, video_sup_req_cmd,
  video_sup_rsp_cmd, v2_key_frame_req_cmd, video_ctrl_cmd, update_notify_cmd, disconnect_req_cmd,
  phone_feature_key, passist_mobile_num_key, phone_name_key, platform_version_key, phone_model_key,
  phone_system_time_key, phone_height_in_app_key, phone_width_in_app_key, mirror_height_in_app_key,
  mirror_width_in_app_key, mirror_type_support_key, phone_uuid_key, version_key, mirror_height_key,
  mirror_width_key, phone_height_key, phone_width_key, platform_key, phone_brand_key,
  update_status_key, video_format_key, video_support_key, play_status_key, car_width_key,
  car_height_key, platform_version, phone_model, app_version, phone_brand,
}

-- `MESSAGE_COMMON_HEADER_V2_MARK`
abbrev pub mark_v2 : Field
mark_v2 = (0, b'5' ∷ b'A' ∷ b'5' ∷ b'A' ∷ [])

abbrev pub source_car : ℕ
source_car = 1

abbrev pub msg_type_touch : ℕ
msg_type_touch = 2

abbrev pub payload_fmt_bin : ℕ
payload_fmt_bin = 0

abbrev pub payload_fmt_json : ℕ
payload_fmt_json = 1

abbrev pub payload_fmt_video : ℕ
payload_fmt_video = 2

-- The header of a JSON message, in memory that is cleared.
abbrev pub json_fields : ℕ → List Field
json_fields full_len = mark_v2 ∷ u32 4 full_len ∷ (13, payload_fmt_json ∷ []) ∷ []

abbrev pub json_message : List ℕ → List ℕ
json_message json = fill (json_fields (16 + length json)) (replicate 16 0) ++ json

-- `message_video_frame_v2_init`, with the full length that its caller sets.
abbrev pub message_video_frame_v2_init : ℕ → ℕ → ℕ → List Field
message_video_frame_v2_init width height framerate =
    mark_v2
    ∷ (8, put_be16 32 [])
    ∷ (10, 1 ∷ [])
    ∷ (11, 0 ∷ [])
    ∷ (12, 0 ∷ [])
    ∷ (13, payload_fmt_video ∷ [])
    ∷ (14, 0 ∷ [])
    ∷ (15, 0 ∷ [])
    ∷ (16, put_be16 32 [])
    ∷ (18, 1 ∷ [])
    ∷ (19, 0 ∷ [])
    ∷ u32 20 width
    ∷ u32 24 height
    ∷ (28, put_be16 0x5A [])
    ∷ (30, 1 ∷ [])
    ∷ (31, 3 ∷ [])
    ∷ u32 32 framerate
    ∷ u32 36 0
    ∷ u32 40 0
    ∷ (44, 1 ∷ [])
    ∷ (45, 0 ∷ [])
    ∷ (46, 0 ∷ [])
    ∷ (47, 0 ∷ [])
    ∷ []

-- The header of a frame, with the extended header.
abbrev pub video_header : ℕ → ℕ → ℕ → ℕ → List ℕ
video_header width height framerate len =
    fill (message_video_frame_v2_init width height framerate ++ (u32 4 (len + 48) ∷ []))
      (replicate 48 0)

-- What `message_phone_info_v2_init` builds.
abbrev pub phone_info : ℕ → ℕ → Value
phone_info width height = object (
    field para_key
      (object (
        field phone_feature_key (object (field passist_mobile_num_key (text []) end)) (
          field phone_name_key (text []) (
            field platform_version_key (text platform_version) (
              field phone_model_key (text phone_model) (
                field phone_system_time_key (number 0) (
                  field phone_height_in_app_key (number height) (
                    field phone_width_in_app_key (number width) (
                      field mirror_height_in_app_key (number height) (
                        field mirror_width_in_app_key (number width) (
                          field mirror_type_support_key (number 2) (
                            field phone_uuid_key (text []) (
                              field version_key (text app_version) (
                                field mirror_height_key (number height) (
                                  field mirror_width_key (number width) (
                                    field phone_height_key (number height) (
                                      field phone_width_key (number width) (
                                        field platform_key (number 0) (
                                          field phone_brand_key (text phone_brand)
                                            end)))))))))))))))))))
      (field cmd_key (text phone_info_cmd) end))

-- What `message_update_satus_v2_init` builds, whatever status it is given.
abbrev pub update_status : Value
update_status = object (
    field para_key (object (field update_status_key (number 5) end))
      (field cmd_key (text update_notify_cmd) end))

-- What `message_video_support_rsp_parameters_v2_init` builds.
abbrev pub video_support : ℕ → ℕ → Value
video_support video_format supported = object (
    field para_key
      (object (
        field video_format_key (number video_format)
          (field video_support_key (number supported) end)))
      (field cmd_key (text video_sup_rsp_cmd) end))

-- What `message_heart_beat_v2_init` builds.
abbrev pub heart_beat : Value
heart_beat = object (field cmd_key (text heartbeat_cmd) end)

-- What a parser finds: nothing that it accepts, a number whose conversion C leaves undefined, or the
-- result.
pub data Found {ℓ} (A : Type ℓ) : Type ℓ where
  missing undefined : Found A
  found : A → Found A

abbrev pub found_uint : ℕ → Number → Found ℕ
found_uint bits x = elim (to_uint bits x) [ none ↦ undefined | some n ↦ found n ]

module _ (lib : JsonLibrary) where
  abbrev item_of : Option lib.Json → List ℕ → Option lib.Json
  item_of none key = none
  item_of (some j) key = lib.item j key

  -- `message_cmd_response_v2_init`: the command, of which 255 characters are kept.
  abbrev pub cmd_of : List ℕ → Option (List ℕ)
  cmd_of payload = elim (item_of (lib.parse payload) cmd_key) [
    | none ↦ none
    | some j ↦ elim (lib.text_of j) [ none ↦ none | some s ↦ some (take 255 (c_string s)) ]
  ]

  -- The object PARA of a message.
  abbrev pub parameters_of : List ℕ → Option lib.Json
  parameters_of payload = elim (item_of (lib.parse payload) para_key) [
    | none ↦ none
    | some j ↦ if lib.is_object j then some j else none
  ]

  abbrev pub number_at : Option lib.Json → List ℕ → Option Number
  number_at parameters key = elim (item_of parameters key) [
    | none ↦ none
    | some j ↦ lib.number_of j
  ]

  -- A number of PARA in so many bits: `message_video_ctrl_parameters_v2_init` and
  -- `message_video_support_req_parameters_v2_init` have eight.
  abbrev pub parameter : ℕ → List ℕ → List ℕ → Found ℕ
  parameter bits key payload = elim (number_at (parameters_of payload) key) [
    | none ↦ missing
    | some x ↦ found_uint bits x
  ]

  abbrev pub both : Found ℕ → Found ℕ → Found (ℕ × ℕ)
  both missing h = missing
  both undefined missing = missing
  both undefined h = undefined
  both (found w) missing = missing
  both (found w) undefined = undefined
  both (found w) (found h) = if w == 0 || h == 0 then missing else found (w, h)

  -- `message_car_info_parameters_v2_init`: width and height, neither of them 0.
  abbrev pub car_info_of : List ℕ → Found (ℕ × ℕ)
  car_info_of payload =
      both (parameter 16 car_width_key payload) (parameter 16 car_height_key payload)
