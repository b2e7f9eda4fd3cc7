-- ===== src/Received.antt =====
-- minimq/src/packets.rs and minimq/src/de/received_packet.rs: the packets that a broker sends, and
-- how they are read.
pub mod Parse
pub mod Acks
pub mod Publication
pub mod RoundTrip
mod Examples
use minimq.Prelude.{Bool, List, Option, none, some, ℕ}
use minimq.Properties.Collection.{Properties}
use minimq.Reason.{ReasonCode, success}
use minimq.Session.Inbound.{HandledPacket}
use minimq.Staging.{topic}
use minimq.Wire.{QoS, Retain}

pub record ConnAck : Type 0 where
  pub session_present : Bool
  pub reason_code : ReasonCode
  pub properties : Properties

pub record Publish : Type 0 where
  pub topic : List ℕ
  pub packet_id : Option ℕ
  pub properties : Properties
  pub payload : List ℕ
  pub retain : Retain
  pub qos : QoS
  pub dup : Bool

pub record ReasonData : Type 0 where
  pub code : ReasonCode
  pub properties : Option Properties

-- PUBACK, PUBREC, PUBREL and PUBCOMP.
pub record Ack : Type 0 where
  pub packet_id : ℕ
  pub reason : Option ReasonData

-- SUBACK and UNSUBACK.
pub record Codes : Type 0 where
  pub packet_id : ℕ
  pub properties : Properties
  pub codes : List ℕ

pub record Disconnect : Type 0 where
  pub reason_code : Option ReasonCode
  pub properties : Option Properties

pub data ReceivedPacket : Type 0 where
  conn_ack : ConnAck → ReceivedPacket
  publish : Publish → ReceivedPacket
  pub_ack pub_rec pub_rel pub_comp : Ack → ReceivedPacket
  sub_ack unsub_ack : Codes → ReceivedPacket
  disconnect : Disconnect → ReceivedPacket
  ping_resp : ReceivedPacket

-- `Reason::code`.
unfoldable pub ack_code : Ack → ReasonCode
ack_code a = elim a.reason [ none ↦ success | some data_read ↦ data_read.code ]

unfoldable pub disconnect_code : Disconnect → ReasonCode
disconnect_code d = elim d.reason_code [ none ↦ success | some code ↦ code ]

-- What the session's handler looks at.
unfoldable pub handled : ReceivedPacket → HandledPacket
unfolding ack_code
handled (ReceivedPacket.conn_ack p) = HandledPacket.conn_ack
handled (ReceivedPacket.publish p) = HandledPacket.publish p.qos p.packet_id
handled (ReceivedPacket.pub_ack p) = HandledPacket.pub_ack p.packet_id (ack_code p)
handled (ReceivedPacket.pub_rec p) = HandledPacket.pub_rec p.packet_id (ack_code p)
handled (ReceivedPacket.pub_rel p) = HandledPacket.pub_rel p.packet_id
handled (ReceivedPacket.pub_comp p) = HandledPacket.pub_comp p.packet_id (ack_code p)
handled (ReceivedPacket.sub_ack p) = HandledPacket.sub_ack p.packet_id p.codes
handled (ReceivedPacket.unsub_ack p) = HandledPacket.unsub_ack p.packet_id p.codes
handled (ReceivedPacket.disconnect p) = HandledPacket.disconnect
handled ReceivedPacket.ping_resp = HandledPacket.ping_resp
