-- ===== src/Staging/Object/Driven.antt =====
-- Connecting and driving the MQTT work touch neither the transfer nor the storage's work.
use minimq.Errors.{Error}
use minimq.Prelude.{Bool, Bool-cases, Option, Result, err, false, inl, inr, none, ok, some, true, ℕ}
use minimq.Staging.{
  Action, ConnectEvent, PendingRequest, Service, State, StatusCode, Transfer, begin_startup,
  connected, disconnected_startup, publish, queue_replay, reconnected, replay_status, startup,
  subscribe,
}
use minimq.Staging.Drive.{
  Mqtt, acknowledged, release_startup, settle, start_action, start_pending, started, step,
}
use minimq.Staging.Object.Sound.{through_queue}

module _ {Op : Type 0} (P : ℕ → ℕ → State → Option PendingRequest → Option Transfer → Type 0) where
  abbrev pub Of : Service Op → Type 0
  Of s = P s.capacity s.max_chunk_size s.state s.request s.transfer

  queue_replay-Of : (o : Option StatusCode) (s : Service Op) → Of s → Of (queue_replay o s)
  unfolding queue_replay
  queue_replay-Of none s h = h
  queue_replay-Of (some code) s h = through_queue P (publish code) s h

  startup-Of :
      (subscribed : Bool) (replay : Option StatusCode) (s : Service Op)
      → Of s
      → Of (startup subscribed replay s)
  unfolding startup
  startup-Of true replay s h = queue_replay-Of replay (record s { startup_publish = none }) h
  startup-Of false replay s h = through_queue P subscribe (record s { startup_publish = replay }) h

  pub begin_startup-Of : (event : ConnectEvent) (s : Service Op) → Of s → Of (begin_startup event s)
  unfolding begin_startup disconnected_startup
  begin_startup-Of connected s h =
      startup-Of false (replay_status s) (record s { inflight = none; subscribed = false }) h
  begin_startup-Of reconnected s h = startup-Of s.subscribed (replay_status s) s h

module _ (mqtt : Mqtt) (P : ℕ → ℕ → State → Option PendingRequest → Option Transfer → Type 0) where
  open mqtt use {Connection, Op, IoError}

  started-Of :
      (s : Service Op) (action : Action) (r : Connection × Result (Error IoError) Op)
      → Of P s
      → Of P (started mqtt s action r).0
  unfolding started
  started-Of s action (c, ok op) h = h
  started-Of s action (c, err e) h = h

  start_pending-Of :
      (c : Connection) (s : Service Op) (o : Option Action)
      → Of P s
      → Of P (start_pending mqtt c s o).0
  unfolding start_pending
  start_pending-Of c s none h = h
  start_pending-Of c s (some action) h = started-Of s action (start_action mqtt c s action) h

  acknowledged-Of : (action : Action) (s : Service Op) → Of P s → Of P (acknowledged mqtt action s)
  unfolding acknowledged
  acknowledged-Of (publish code) s h = h
  acknowledged-Of subscribe s h = released s.startup_publish
    where
      released :
          (o : Option StatusCode) → Of P (release_startup mqtt o (record s { subscribed = true }))
      released none = h
      released (some code) =
          through_queue P (publish code) (record s { subscribed = true; startup_publish = none }) h

  settle-Of :
      (c : Connection) (s : Service Op) (o : Option (Action × Op))
      → Of P s
      → Of P (settle mqtt c s o).0
  unfolding settle
  settle-Of c s none h = start_pending-Of c s s.pending h
  settle-Of c s (some (action, op)) h = elim (Bool-cases (mqtt.is_pending c op)) [
    | inl e ↦ rw e h
    | inr e ↦ elim (Bool-cases (mqtt.is_invalidated c op)) [
      | inl f ↦ rw (e, f) (through_queue P action (record s { inflight = none }) h)
      | inr f ↦
          rw (e, f)
            (start_pending-Of c (acknowledged mqtt action (record s { inflight = none }))
              (acknowledged mqtt action (record s { inflight = none })).pending
              (acknowledged-Of action (record s { inflight = none }) h))
    ]
  ]

  pub step-Of : (c : Connection) (s : Service Op) → Of P s → Of P (step mqtt c s).0
  unfolding step
  step-Of c s h =
      let s' = record s { max_rx_packet_size = mqtt.max_rx_packet_size c } in
      settle-Of c s' s'.inflight h
