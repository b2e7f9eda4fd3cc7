-- ===== src/Transport.antt =====
-- The transport under a connection: `Io` of minimq/src/mqtt_client/mod.rs, a `Read` and a `Write`
-- of the crate embedded_io_async. It is a parameter. The laws are that crate's documentation: a
-- read returns at most as many bytes as the buffer holds, and a write takes at most what it is given.
-- `Transport` is the state of the other side as far as this side can observe it. An operation
-- gives the state that follows and its result; a read gives the bytes that it put into the buffer.
use minimq.Prelude.{List, Result, length, ok, ℕ, ◌++◌, ◌≡◌, ◌≤◌}

pub record Io : Type 1 where
  pub Transport : Type 0
  pub IoError : Type 0
  pub read : Transport → ℕ → Transport × Result IoError (List ℕ)
  pub write : Transport → List ℕ → Transport × Result IoError ℕ
  pub flush : Transport → Transport × Result IoError (Unit {0})
  pub read-le : (t t' : Transport) (n : ℕ) (bs : List ℕ) → read t n ≡ (t', ok bs) → length bs ≤ n
  pub write-le : (t t' : Transport) (bs : List ℕ) (n : ℕ) → write t bs ≡ (t', ok n) → n ≤ length bs

-- A reliable byte stream: what the peer has sent and nobody has read yet comes in order.
pub record IsStream (io : Io) : Type 0 where
  pub incoming : io.Transport → List ℕ
  pub read-incoming :
      (t t' : io.Transport) (n : ℕ) (bs : List ℕ)
      → io.read t n ≡ (t', ok bs)
      → incoming t ≡ bs ++ incoming t'
