-- ===== src/Outbound/Send/Publish.antt =====
-- minimq/src/mqtt_client/outbound.rs: `encode_publish`, into the part of the transmit buffer behind
-- the retained packets and in front of the room kept for CONNECT. minimq/src/lib.rs: `PubError`.
use minimq.Errors.{Error, ResourceError, from_ser, resource}
use minimq.Outbound.{Outbound, retained_bytes, retained_capacity}
use minimq.Outbound.Send.{pack_encoded}
use minimq.Prelude.{List, Result, drop, err, ok, take, ℕ, ◌++◌, ◌-◌}
use minimq.Ser.{Encoded, Serialize}
use minimq.Ser.Publish.{PublishError, encode_publish_with_offset, encoding, payload_failed}

pub data PubError (P E : Type 0) : Type 0 where
  session_failed : Error E → PubError P E
  payload_rejected : P → PubError P E

unfoldable pub from_publish : {P E : Type 0} → PublishError P → PubError P E
unfolding from_ser
from_publish (payload_failed e) = payload_rejected e
from_publish (encoding e) = session_failed (from_ser e)

-- `buf[start..end]`; a start behind the end would panic.
unfoldable pub publish_space : Outbound → List ℕ
unfolding retained_bytes retained_capacity
publish_space o = take (retained_capacity o - retained_bytes o) (drop (retained_bytes o) o.buf)

unfoldable pub put_publish_space : Outbound → List ℕ → Outbound
unfolding retained_bytes retained_capacity
put_publish_space o written = record o {
  buf = take (retained_bytes o) o.buf ++ (written ++ drop (retained_capacity o) o.buf);
}

module _ {P E : Type 0} where
  unfoldable pub publish_packed :
      ℕ → Outbound × Result ResourceError (Unit {0}) → Outbound × Result (PubError P E) ℕ
  publish_packed len (o, ok u) = (o, ok len)
  publish_packed len (o, err e) = (o, err (session_failed (resource e)))

  unfoldable pub publish_result :
      Outbound → List ℕ × Result (PublishError P) Encoded → Outbound × Result (PubError P E) ℕ
  unfolding publish_packed pack_encoded put_publish_space from_publish
  publish_result o (written, err e) = (put_publish_space o written, err (from_publish e))
  publish_result o (written, ok e) =
      publish_packed e.len (pack_encoded e.offset e.len (put_publish_space o written))

  unfoldable pub encode_publish :
      ℕ → Serialize → (List ℕ → List ℕ × Result P ℕ) → Outbound → Outbound × Result (PubError P E) ℕ
  unfolding publish_result publish_space encode_publish_with_offset
  encode_publish header fields payload o =
      publish_result o (encode_publish_with_offset header fields payload (publish_space o))
