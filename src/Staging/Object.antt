-- ===== src/Staging/Object.antt =====
-- What the application's storage has received: every accepted write whose success has been
-- reported, in order. The events are what reaches the service.
pub mod Sound
pub mod Assembled
pub mod Driven
pub mod Handled
pub mod Reported
pub mod Advances
mod Examples
use minimq.Prelude.{Bool, List, Option, [], false, none, some, true, ◌++◌, ◌∷◌}
use minimq.Properties.Collection.{Properties}
use minimq.Staging.{
  Bytes, ConnectEvent, Handle, Service, StagingRequest, StagingWrite, abort, begin_startup,
  complete_request, consumed, prepare, request, topic, unhandled, write,
}
use minimq.Staging.Drive.{Mqtt, step}
use minimq.Staging.Inbound.{handle_publish}
use minimq.Staging.Rules.{ManifestReader}

pub data Event (mqtt : Mqtt) : Type 0 where
  -- an inbound publication: topic, payload, properties, retained
  inbound : Bytes → Bytes → Properties → Bool → Event mqtt
  -- the storage reports a result
  reported : Bool → Event mqtt
  aborted : Event mqtt
  connection_made : ConnectEvent → Event mqtt
  driven : mqtt.Connection → Event mqtt

-- The service, the write that the storage is busy with, and the bytes that it has stored.
pub record World (Op : Type 0) : Type 0 where
  pub service : Service Op
  pub outstanding : Option StagingWrite
  pub stored : Bytes

unfoldable pub stored_after : Bool → Option StagingWrite → Bytes → Bytes
stored_after true (some chunk) stored = stored ++ chunk.payload
stored_after true none stored = stored
stored_after false chunk stored = stored

module _ {Op : Type 0} where
  -- A request reaches the storage; a new object starts empty.
  unfoldable pub noted : Service Op × Handle → World Op → World Op
  noted (s, unhandled) w = record w { service = s }
  noted (s, consumed) w = record w { service = s }
  noted (s, request (StagingRequest.prepare size)) w = record {
    service = s;
    outstanding = none;
    stored = [];
  }
  noted (s, request (StagingRequest.write chunk)) w = record w {
    service = s;
    outstanding = some chunk;
  }

  unfoldable pub stop : World Op → Service Op × Bool → World Op
  stop w (s, true) = record w { service = s; outstanding = none }
  stop w (s, false) = record w { service = s }

module _ (mqtt : Mqtt) (reader : ManifestReader) where
  unfoldable pub advance : World mqtt.Op → Event mqtt → World mqtt.Op
  unfolding noted stored_after stop handle_publish complete_request abort begin_startup step
  advance w (inbound topic payload properties retained) =
      noted (handle_publish reader topic payload properties retained w.service) w
  advance w (reported result) = record {
    service = complete_request result w.service;
    outstanding = none;
    stored = stored_after result w.outstanding w.stored;
  }
  advance w aborted = stop w (abort w.service)
  advance w (connection_made event) = record w { service = begin_startup event w.service }
  advance w (driven c) = record w { service = (step mqtt c w.service).0 }

  unfoldable pub run : World mqtt.Op → List (Event mqtt) → World mqtt.Op
  unfolding advance
  run w [] = w
  run w (e ∷ es) = run (advance w e) es

unfoldable pub start_world : {Op : Type 0} → Service Op → World Op
start_world s = record { service = s; outstanding = none; stored = [] }
