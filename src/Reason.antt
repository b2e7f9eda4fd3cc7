-- ===== src/Reason.antt =====
-- minimq/src/reason_codes.rs: the MQTT reason codes and their numbers.
-- `from_u8` and `to_u8` are what `num_enum` derives from the table of the enum.
pub mod Codes
mod Examples
use minimq.Prelude.{Bool, List, [], if◌then◌else◌, ltb, not, ℕ, ◌==◌, ◌∷◌}

pub data ReasonCode : Type 0 where
  success granted_qos1 granted_qos2 disconnect_with_will no_matching_subscribers : ReasonCode
  no_subscription_existed continue_authentication reauthenticate unspecified_error : ReasonCode
  malformed_packet protocol_error implementation_error unsupported_protocol : ReasonCode
  client_identifier_invalid bad_username_or_password not_authorized server_unavailable : ReasonCode
  server_busy bad_auth_method keep_alive_timeout session_taken_over topic_filter_invalid :
      ReasonCode
  topic_name_invalid packet_id_in_use packet_id_not_found receive_max_exceeded : ReasonCode
  topic_alias_invalid packet_too_large message_rate_too_high quota_exceeded : ReasonCode
  administrative_action payload_format_invalid retain_not_supported qos_not_supported : ReasonCode
  use_another_server server_moved shared_subscriptions_not_supported : ReasonCode
  connection_rate_exceeded maximum_connect_time subscription_identifiers_not_supported : ReasonCode
  wildcard_subscriptions_not_supported unknown : ReasonCode

unfoldable pub to_u8 : ReasonCode → ℕ
to_u8 success = 0
to_u8 granted_qos1 = 1
to_u8 granted_qos2 = 2
to_u8 disconnect_with_will = 4
to_u8 no_matching_subscribers = 16
to_u8 no_subscription_existed = 17
to_u8 continue_authentication = 24
to_u8 reauthenticate = 25
to_u8 unspecified_error = 128
to_u8 malformed_packet = 129
to_u8 protocol_error = 130
to_u8 implementation_error = 131
to_u8 unsupported_protocol = 132
to_u8 client_identifier_invalid = 133
to_u8 bad_username_or_password = 134
to_u8 not_authorized = 135
to_u8 server_unavailable = 136
to_u8 server_busy = 137
to_u8 bad_auth_method = 140
to_u8 keep_alive_timeout = 141
to_u8 session_taken_over = 142
to_u8 topic_filter_invalid = 143
to_u8 topic_name_invalid = 144
to_u8 packet_id_in_use = 145
to_u8 packet_id_not_found = 146
to_u8 receive_max_exceeded = 147
to_u8 topic_alias_invalid = 148
to_u8 packet_too_large = 149
to_u8 message_rate_too_high = 150
to_u8 quota_exceeded = 151
to_u8 administrative_action = 152
to_u8 payload_format_invalid = 153
to_u8 retain_not_supported = 154
to_u8 qos_not_supported = 155
to_u8 use_another_server = 156
to_u8 server_moved = 157
to_u8 shared_subscriptions_not_supported = 158
to_u8 connection_rate_exceeded = 159
to_u8 maximum_connect_time = 160
to_u8 subscription_identifiers_not_supported = 161
to_u8 wildcard_subscriptions_not_supported = 162
to_u8 unknown = 255

-- Every variant but the default.
documented : List ReasonCode
documented =
    success ∷ granted_qos1 ∷ granted_qos2 ∷ disconnect_with_will ∷ no_matching_subscribers
    ∷ no_subscription_existed ∷ continue_authentication ∷ reauthenticate ∷ unspecified_error
    ∷ malformed_packet ∷ protocol_error ∷ implementation_error ∷ unsupported_protocol
    ∷ client_identifier_invalid ∷ bad_username_or_password ∷ not_authorized ∷ server_unavailable
    ∷ server_busy ∷ bad_auth_method ∷ keep_alive_timeout ∷ session_taken_over ∷ topic_filter_invalid
    ∷ topic_name_invalid ∷ packet_id_in_use ∷ packet_id_not_found ∷ receive_max_exceeded
    ∷ topic_alias_invalid ∷ packet_too_large ∷ message_rate_too_high ∷ quota_exceeded
    ∷ administrative_action ∷ payload_format_invalid ∷ retain_not_supported ∷ qos_not_supported
    ∷ use_another_server ∷ server_moved ∷ shared_subscriptions_not_supported
    ∷ connection_rate_exceeded ∷ maximum_connect_time ∷ subscription_identifiers_not_supported
    ∷ wildcard_subscriptions_not_supported ∷ []

-- `FromPrimitive` with `#[num_enum(default)]` on `Unknown`.
find_code : List ReasonCode → ℕ → ReasonCode
find_code [] value = unknown
find_code (c ∷ cs) value = if value == to_u8 c then c else find_code cs value

unfoldable pub from_u8 : ℕ → ReasonCode
unfolding find_code documented to_u8
from_u8 value = find_code documented value

-- The method `success`.
unfoldable pub is_success : ReasonCode → Bool
unfolding to_u8
is_success code = ltb (to_u8 code) 128

pub failed : ReasonCode → Bool
failed code = not (is_success code)
