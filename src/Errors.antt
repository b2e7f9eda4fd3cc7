-- ===== src/Errors.antt =====
-- minimq/src/lib.rs, ser/mod.rs and de/deserializer.rs: the error types and their conversions.
-- minimq/src/reason_codes.rs: the verdict on a reason code.
use minimq.Prelude.{Result, err, if◌then◌else◌, ok}
use minimq.Reason.{ReasonCode, is_success}

pub data SerError : Type 0 where
  insufficient_memory custom : SerError

pub data DeError : Type 0 where
  de_custom bad_string bad_bool bad_varint insufficient_data : DeError

pub data PeerError : Type 0 where
  rejected : ReasonCode → PeerError
  invalid_packet : PeerError

pub data ResourceError : Type 0 where
  buffer_too_small packet_too_large inflight_exhausted : ResourceError

-- `response_too_large` is `PacketTooLarge`.
pub data ProtocolError : Type 0 where
  unexpected_packet malformed_packet inflight_metadata_exhausted response_too_large : ProtocolError
  encode : SerError → ProtocolError
  deserialization : DeError → ProtocolError

-- The crate's public error, over the transport's error type.
pub data Error {ℓ} (E : Type ℓ) : Type ℓ where
  not_ready disconnected invalid_request write_zero : Error E
  peer : PeerError → Error E
  resource : ResourceError → Error E
  transport : E → Error E

unfoldable pub from_ser {ℓ} : {E : Type ℓ} → SerError → Error E
from_ser insufficient_memory = resource buffer_too_small
from_ser custom = invalid_request

unfoldable pub from_protocol {ℓ} : {E : Type ℓ} → ProtocolError → Error E
unfolding from_ser
from_protocol unexpected_packet = peer invalid_packet
from_protocol malformed_packet = peer invalid_packet
from_protocol inflight_metadata_exhausted = resource inflight_exhausted
from_protocol response_too_large = resource packet_too_large
from_protocol (encode e) = from_ser e
from_protocol (deserialization e) = peer invalid_packet

-- `as_result`.
unfoldable pub as_result : ReasonCode → Result PeerError (Unit {0})
unfolding is_success
as_result code = if is_success code then ok tt else err (rejected code)
