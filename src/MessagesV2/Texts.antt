-- ===== src/MessagesV2/Texts.antt =====
-- The texts of the JSON messages of the second protocol, from inc/messages/v2/message_common_header_v2.h
-- and src/messages/v2/.
use qdplay.Prelude.{ℕ, List, [], ◌∷◌}

abbrev pub cmd_key : List ℕ
cmd_key = b'C' ∷ b'M' ∷ b'D' ∷ []

abbrev pub para_key : List ℕ
para_key = b'P' ∷ b'A' ∷ b'R' ∷ b'A' ∷ []

abbrev pub heartbeat_cmd : List ℕ
heartbeat_cmd = b'H' ∷ b'E' ∷ b'A' ∷ b'R' ∷ b'T' ∷ b'B' ∷ b'E' ∷ b'A' ∷ b'T' ∷ []

abbrev pub phone_info_cmd : List ℕ
phone_info_cmd = b'P' ∷ b'H' ∷ b'O' ∷ b'N' ∷ b'E' ∷ b'_' ∷ b'I' ∷ b'N' ∷ b'F' ∷ b'O' ∷ []

abbrev pub car_info_cmd : List ℕ
car_info_cmd = b'C' ∷ b'A' ∷ b'R' ∷ b'_' ∷ b'I' ∷ b'N' ∷ b'F' ∷ b'O' ∷ []

abbrev pub video_sup_req_cmd : List ℕ
video_sup_req_cmd =
    b'V' ∷ b'I' ∷ b'D' ∷ b'E' ∷ b'O' ∷ b'_' ∷ b'S' ∷ b'U' ∷ b'P' ∷ b'_' ∷ b'R' ∷ b'E' ∷ b'Q' ∷ []

abbrev pub video_sup_rsp_cmd : List ℕ
video_sup_rsp_cmd =
    b'V' ∷ b'I' ∷ b'D' ∷ b'E' ∷ b'O' ∷ b'_' ∷ b'S' ∷ b'U' ∷ b'P' ∷ b'_' ∷ b'R' ∷ b'S' ∷ b'P' ∷ []

abbrev pub v2_key_frame_req_cmd : List ℕ
v2_key_frame_req_cmd =
    b'K' ∷ b'E' ∷ b'Y' ∷ b'_' ∷ b'F' ∷ b'R' ∷ b'A' ∷ b'M' ∷ b'E' ∷ b'_' ∷ b'R' ∷ b'E' ∷ b'Q' ∷ []

abbrev pub video_ctrl_cmd : List ℕ
video_ctrl_cmd = b'V' ∷ b'I' ∷ b'D' ∷ b'E' ∷ b'O' ∷ b'_' ∷ b'C' ∷ b'T' ∷ b'R' ∷ b'L' ∷ []

abbrev pub update_notify_cmd : List ℕ
update_notify_cmd =
    b'U' ∷ b'P' ∷ b'D' ∷ b'A' ∷ b'T' ∷ b'E' ∷ b'_' ∷ b'N' ∷ b'O' ∷ b'T' ∷ b'I' ∷ b'F' ∷ b'Y' ∷ []

abbrev pub disconnect_req_cmd : List ℕ
disconnect_req_cmd =
    b'D' ∷ b'I' ∷ b'S' ∷ b'C' ∷ b'O' ∷ b'N' ∷ b'N' ∷ b'E' ∷ b'C' ∷ b'T' ∷ b'_' ∷ b'R' ∷ b'E' ∷ b'Q'
    ∷ []

abbrev pub phone_feature_key : List ℕ
phone_feature_key =
    b'P' ∷ b'h' ∷ b'o' ∷ b'n' ∷ b'e' ∷ b'F' ∷ b'e' ∷ b'a' ∷ b't' ∷ b'u' ∷ b'r' ∷ b'e' ∷ []

abbrev pub passist_mobile_num_key : List ℕ
passist_mobile_num_key =
    b'P' ∷ b'a' ∷ b's' ∷ b's' ∷ b'i' ∷ b's' ∷ b't' ∷ b'M' ∷ b'o' ∷ b'b' ∷ b'i' ∷ b'l' ∷ b'e' ∷ b'N'
    ∷ b'u' ∷ b'm' ∷ []

abbrev pub phone_name_key : List ℕ
phone_name_key = b'P' ∷ b'h' ∷ b'o' ∷ b'n' ∷ b'e' ∷ b'N' ∷ b'a' ∷ b'm' ∷ b'e' ∷ []

abbrev pub platform_version_key : List ℕ
platform_version_key =
    b'P' ∷ b'l' ∷ b'a' ∷ b't' ∷ b'f' ∷ b'o' ∷ b'r' ∷ b'm' ∷ b'V' ∷ b'e' ∷ b'r' ∷ b's' ∷ b'i' ∷ b'o'
    ∷ b'n' ∷ []

abbrev pub phone_model_key : List ℕ
phone_model_key = b'P' ∷ b'h' ∷ b'o' ∷ b'n' ∷ b'e' ∷ b'M' ∷ b'o' ∷ b'd' ∷ b'e' ∷ b'l' ∷ []

abbrev pub phone_system_time_key : List ℕ
phone_system_time_key =
    b'P' ∷ b'h' ∷ b'o' ∷ b'n' ∷ b'e' ∷ b'S' ∷ b'y' ∷ b's' ∷ b't' ∷ b'e' ∷ b'm' ∷ b'T' ∷ b'i' ∷ b'm'
    ∷ b'e' ∷ []

abbrev pub phone_height_in_app_key : List ℕ
phone_height_in_app_key =
    b'P' ∷ b'h' ∷ b'o' ∷ b'n' ∷ b'e' ∷ b'H' ∷ b'e' ∷ b'i' ∷ b'g' ∷ b'h' ∷ b't' ∷ b'I' ∷ b'n' ∷ b'A'
    ∷ b'p' ∷ b'p' ∷ []

abbrev pub phone_width_in_app_key : List ℕ
phone_width_in_app_key =
    b'P' ∷ b'h' ∷ b'o' ∷ b'n' ∷ b'e' ∷ b'W' ∷ b'i' ∷ b'd' ∷ b't' ∷ b'h' ∷ b'I' ∷ b'n' ∷ b'A' ∷ b'p'
    ∷ b'p' ∷ []

abbrev pub mirror_height_in_app_key : List ℕ
mirror_height_in_app_key =
    b'M' ∷ b'i' ∷ b'r' ∷ b'r' ∷ b'o' ∷ b'r' ∷ b'H' ∷ b'e' ∷ b'i' ∷ b'g' ∷ b'h' ∷ b't' ∷ b'I' ∷ b'n'
    ∷ b'A' ∷ b'p' ∷ b'p' ∷ []

abbrev pub mirror_width_in_app_key : List ℕ
mirror_width_in_app_key =
    b'M' ∷ b'i' ∷ b'r' ∷ b'r' ∷ b'o' ∷ b'r' ∷ b'W' ∷ b'i' ∷ b'd' ∷ b't' ∷ b'h' ∷ b'I' ∷ b'n' ∷ b'A'
    ∷ b'p' ∷ b'p' ∷ []

abbrev pub mirror_type_support_key : List ℕ
mirror_type_support_key =
    b'M' ∷ b'i' ∷ b'r' ∷ b'r' ∷ b'o' ∷ b'r' ∷ b'T' ∷ b'y' ∷ b'p' ∷ b'e' ∷ b'S' ∷ b'u' ∷ b'p' ∷ b'p'
    ∷ b'o' ∷ b'r' ∷ b't' ∷ []

abbrev pub phone_uuid_key : List ℕ
phone_uuid_key = b'P' ∷ b'h' ∷ b'o' ∷ b'n' ∷ b'e' ∷ b'U' ∷ b'U' ∷ b'I' ∷ b'D' ∷ []

abbrev pub version_key : List ℕ
version_key = b'V' ∷ b'e' ∷ b'r' ∷ b's' ∷ b'i' ∷ b'o' ∷ b'n' ∷ []

abbrev pub mirror_height_key : List ℕ
mirror_height_key =
    b'M' ∷ b'i' ∷ b'r' ∷ b'r' ∷ b'o' ∷ b'r' ∷ b'H' ∷ b'e' ∷ b'i' ∷ b'g' ∷ b'h' ∷ b't' ∷ []

abbrev pub mirror_width_key : List ℕ
mirror_width_key = b'M' ∷ b'i' ∷ b'r' ∷ b'r' ∷ b'o' ∷ b'r' ∷ b'W' ∷ b'i' ∷ b'd' ∷ b't' ∷ b'h' ∷ []

abbrev pub phone_height_key : List ℕ
phone_height_key = b'P' ∷ b'h' ∷ b'o' ∷ b'n' ∷ b'e' ∷ b'H' ∷ b'e' ∷ b'i' ∷ b'g' ∷ b'h' ∷ b't' ∷ []

abbrev pub phone_width_key : List ℕ
phone_width_key = b'P' ∷ b'h' ∷ b'o' ∷ b'n' ∷ b'e' ∷ b'W' ∷ b'i' ∷ b'd' ∷ b't' ∷ b'h' ∷ []

abbrev pub platform_key : List ℕ
platform_key = b'P' ∷ b'l' ∷ b'a' ∷ b't' ∷ b'f' ∷ b'o' ∷ b'r' ∷ b'm' ∷ []

abbrev pub phone_brand_key : List ℕ
phone_brand_key = b'P' ∷ b'h' ∷ b'o' ∷ b'n' ∷ b'e' ∷ b'B' ∷ b'r' ∷ b'a' ∷ b'n' ∷ b'd' ∷ []

abbrev pub update_status_key : List ℕ
update_status_key =
    b'U' ∷ b'p' ∷ b'd' ∷ b'a' ∷ b't' ∷ b'e' ∷ b'S' ∷ b't' ∷ b'a' ∷ b't' ∷ b'u' ∷ b's' ∷ []

abbrev pub video_format_key : List ℕ
video_format_key = b'V' ∷ b'i' ∷ b'd' ∷ b'e' ∷ b'o' ∷ b'F' ∷ b'o' ∷ b'r' ∷ b'm' ∷ b'a' ∷ b't' ∷ []

abbrev pub video_support_key : List ℕ
video_support_key =
    b'V' ∷ b'i' ∷ b'd' ∷ b'e' ∷ b'o' ∷ b'S' ∷ b'u' ∷ b'p' ∷ b'p' ∷ b'o' ∷ b'r' ∷ b't' ∷ []

abbrev pub play_status_key : List ℕ
play_status_key = b'P' ∷ b'l' ∷ b'a' ∷ b'y' ∷ b'S' ∷ b't' ∷ b'a' ∷ b't' ∷ b'u' ∷ b's' ∷ []

abbrev pub car_width_key : List ℕ
car_width_key = b'C' ∷ b'a' ∷ b'r' ∷ b'W' ∷ b'i' ∷ b'd' ∷ b't' ∷ b'h' ∷ []

abbrev pub car_height_key : List ℕ
car_height_key = b'C' ∷ b'a' ∷ b'r' ∷ b'H' ∷ b'e' ∷ b'i' ∷ b'g' ∷ b'h' ∷ b't' ∷ []

abbrev pub platform_version : List ℕ
platform_version = b'3' ∷ b'1' ∷ []

abbrev pub phone_model : List ℕ
phone_model =
    b'S' ∷ b'a' ∷ b'm' ∷ b's' ∷ b'u' ∷ b'n' ∷ b'g' ∷ b' ' ∷ b'G' ∷ b'a' ∷ b'l' ∷ b'a' ∷ b'x' ∷ b'y'
    ∷ b' ' ∷ b'A' ∷ b'5' ∷ b'0' ∷ []

abbrev pub app_version : List ℕ
app_version = b'1' ∷ b'.' ∷ b'7' ∷ b'.' ∷ b'7' ∷ []

abbrev pub phone_brand : List ℕ
phone_brand = b'S' ∷ b'a' ∷ b'm' ∷ b's' ∷ b'u' ∷ b'n' ∷ b'g' ∷ []
