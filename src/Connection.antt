-- ===== src/Connection.antt =====
-- minimq/src/mqtt_client/session/mod.rs: a live connection of a session, and the state of operations.
-- The event with which it began never changes and is left out.
pub mod Status
pub mod Write
pub mod Receive
pub mod Dead
pub mod Untouched
pub mod Announced
pub mod Decoded
mod Examples
use minimq.Outbound.{Outbound}
use minimq.Outbound.Send.{arm_replay}
use minimq.Prelude.{Bool, false}
use minimq.Reader.{PacketReader, reset}
use minimq.Session.{Client, RuntimeState, reset_transport, with_outbound}
use minimq.Transport.{Io}

pub data FlushState : Type 0 where
  clean dirty flushing : FlushState

pub record ConnectionState (io : Io) : Type 0 where
  pub client : Client
  pub reader : PacketReader
  pub transport_state : io.Transport
  pub live : Bool
  pub flush_state : FlushState

module _ {io : Io} where
  unfoldable pub with_client : ConnectionState io → Client → ConnectionState io
  with_client c client = record c { client = client }

  unfoldable pub outbound_of : ConnectionState io → Outbound
  outbound_of c = c.client.session.outbound

  unfoldable pub put_outbound : ConnectionState io → Outbound → ConnectionState io
  unfolding with_outbound
  put_outbound c o = record c { client = with_outbound c.client o }

  unfoldable pub put_runtime : ConnectionState io → RuntimeState → ConnectionState io
  put_runtime c r = record c { client = record c.client { runtime = r } }

  -- `Session::handle_disconnect` and `Connection::handle_disconnect`.
  unfoldable pub handle_disconnect : ConnectionState io → ConnectionState io
  unfolding with_outbound arm_replay reset_transport
  handle_disconnect c = record c {
    live = false;
    client = record {
      session = record c.client.session { outbound = arm_replay c.client.session.outbound };
      runtime = reset_transport c.client.runtime;
    };
    reader = reset c.reader;
  }
