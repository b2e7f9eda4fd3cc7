-- ===== src/Reader/Fill.antt =====
-- `fill_packet_reader` of minimq/src/mqtt_client/session/drive.rs: read until a packet is whole.
-- A round of a loop ends it, or goes on from a new state.
pub mod Stream
pub mod Delivery
mod Examples
use minimq.Errors.{Error, ProtocolError, disconnected, from_protocol, transport}
use minimq.Prelude.{
  List, Option, Result, drop, err, if◌then◌else◌, leb, length, none, ok, some, suc, take, zero, ℕ,
  ◌++◌, ◌+◌, ◌-◌, ◌==◌,
}
use minimq.Reader.{PacketReader, commit, packet_available, receive_buffer}
use minimq.Transport.{Io}

pub data Turn (S R : Type 0) : Type 0 where
  stop : R → Turn S R
  again : S → Turn S R

-- The bytes that a read puts at the start of the window.
pub deposit : PacketReader → List ℕ → PacketReader
deposit r bs = record r {
  buffer = take r.read_bytes r.buffer ++ (bs ++ drop (r.read_bytes + length bs) r.buffer);
}

module _ (io : Io) where
  open io use {Transport, IoError, read}

  abbrev pub Filling : Type 0
  Filling = PacketReader × Transport

  abbrev pub Filled : Type 0
  Filled = PacketReader × Transport × Result (Error IoError) (Unit {0})

  fill_read : PacketReader → Transport × Result IoError (List ℕ) → Turn Filling Filled
  fill_read r (t, err e) = stop (r, t, err (transport e))
  fill_read r (t, ok bs) =
      if length bs == 0
      then stop (r, t, err disconnected)
      else again (commit (deposit r bs) (length bs), t)

  fill_window : Transport → PacketReader × Result ProtocolError (ℕ × ℕ) → Turn Filling Filled
  unfolding fill_read
  fill_window t (r, err e) = stop (r, t, err (from_protocol e))
  fill_window t (r, ok (start, end)) =
      if leb end start then stop (r, t, ok tt) else fill_read r (read t (end - start))

  -- One round of the `while` loop.
  pub fill_round : Filling → Turn Filling Filled
  unfolding fill_window
  fill_round (r, t) =
      if packet_available r then stop (r, t, ok tt) else fill_window t (receive_buffer r)

  -- The loop; `none` where the fuel runs out.
  pub fill_packet_reader : ℕ → Filling → Option Filled
  fill_packet_reader zero s = none
  fill_packet_reader (suc fuel) s = elim (fill_round s) [
    | stop r ↦ some r
    | again s' ↦ fill_packet_reader fuel s'
  ]
