-- ===== src/Staging.antt =====
-- mqtt-staging/src/lib.rs: a service that receives one object in chunks over MQTT and hands each
-- chunk to the application's storage. Its state, and the operations that the application calls.
pub mod Drive
pub mod Inbound
pub mod Object
pub mod Rules
use minimq.Errors.{ResourceError, buffer_too_small}
use minimq.Prelude.{
  Bool, List, Option, Result, [], err, fail_if, false, if◌then◌else◌, length, ltb, map_err, none,
  not, ok, some, true, ℕ, ◌%◌, ◌&&◌, ◌++◌, ◌==◌, ◌>>=◌, ◌>>◌, ◌||◌, ◌∷◌,
}

-- Text is its bytes.
abbrev pub Bytes : Type 0
Bytes = List ℕ

abbrev pub max_transfer_id_bytes : ℕ
max_transfer_id_bytes = 48

abbrev pub max_topic_bytes : ℕ
max_topic_bytes = 128

-- "/manifest", "/status" and "/chunk".
abbrev pub manifest_suffix : Bytes
manifest_suffix = 47 ∷ 109 ∷ 97 ∷ 110 ∷ 105 ∷ 102 ∷ 101 ∷ 115 ∷ 116 ∷ []

abbrev pub status_suffix : Bytes
status_suffix = 47 ∷ 115 ∷ 116 ∷ 97 ∷ 116 ∷ 117 ∷ 115 ∷ []

abbrev pub chunk_suffix : Bytes
chunk_suffix = 47 ∷ 99 ∷ 104 ∷ 117 ∷ 110 ∷ 107 ∷ []

pub record Transfer : Type 0 where
  pub id : Bytes
  pub size : ℕ
  pub next_offset : ℕ
  pub fnv1a64 : ℕ

pub record Config : Type 0 where
  pub capacity : ℕ
  pub max_chunk_size : ℕ
  pub write_size : ℕ

pub data CreateError : Type 0 where
  topic_error : ResourceError → CreateError
  invalid_chunk_size : CreateError

pub data State : Type 0 where
  idle preparing ready writing complete error : State

pub data StatusCode : Type 0 where
  idle accepted duplicate offset oversize mtu unaligned storage complete error : StatusCode

pub record Status : Type 0 where
  pub state : State
  pub code : StatusCode
  pub id : Bytes
  pub next_offset : ℕ
  pub size : ℕ
  pub mtu : ℕ
  pub write_size : ℕ

pub data Action : Type 0 where
  publish : StatusCode → Action
  subscribe : Action

pub data PendingRequest : Type 0 where
  prepare : PendingRequest
  -- the next offset, and whether the chunk is the last one
  write : ℕ → Bool → PendingRequest

-- One accepted chunk for the storage.
pub record StagingWrite : Type 0 where
  pub offset : ℕ
  pub payload : Bytes
  pub size : ℕ
  pub fnv1a64 : Option ℕ

pub data StagingRequest : Type 0 where
  prepare : ℕ → StagingRequest
  write : StagingWrite → StagingRequest

pub data Handle : Type 0 where
  unhandled consumed : Handle
  request : StagingRequest → Handle

pub data ConnectEvent : Type 0 where
  connected reconnected : ConnectEvent

-- The state of the service; `Op` is the client's handle of an MQTT operation.
pub record Service (Op : Type 0) : Type 0 where
  pub prefix : Bytes
  pub inflight : Option (Action × Op)
  pub pending : Option Action
  pub startup_publish : Option StatusCode
  pub subscribed : Bool
  pub state : State
  pub transfer : Option Transfer
  pub request : Option PendingRequest
  pub capacity : ℕ
  pub max_chunk_size : ℕ
  pub max_rx_packet_size : ℕ
  pub write_size : ℕ

unfoldable pub is_subscribe : Action → Bool
is_subscribe subscribe = true
is_subscribe (publish code) = false

unfoldable pub is_idle : State → Bool
is_idle State.idle = true
is_idle s = false

unfoldable pub is_active : State → Bool
is_active preparing = true
is_active ready = true
is_active writing = true
is_active s = false

unfoldable pub is_complete_state : State → Bool
is_complete_state State.complete = true
is_complete_state s = false

unfoldable pub state_code : State → StatusCode
state_code State.idle = StatusCode.idle
state_code preparing = accepted
state_code ready = accepted
state_code writing = accepted
state_code State.complete = StatusCode.complete
state_code State.error = StatusCode.error

-- `is_multiple_of`.
unfoldable pub multiple_of : ℕ → ℕ → Bool
multiple_of n m = if m == 0 then n == 0 else n % m == 0

-- `topic`: the prefix and a suffix, in a string of fixed capacity.
unfoldable pub topic : Bytes → Bytes → Result ResourceError Bytes
topic prefix suffix =
    if ltb max_topic_bytes (length (prefix ++ suffix))
    then err buffer_too_small
    else ok (prefix ++ suffix)

unfoldable pub some_subscribe : Option Action → Bool
unfolding is_subscribe
some_subscribe none = false
some_subscribe (some a) = is_subscribe a

abbrev pub transfer_id : Option Transfer → Bytes
transfer_id none = []
transfer_id (some t) = t.id

abbrev pub transfer_offset : Option Transfer → ℕ
transfer_offset none = 0
transfer_offset (some t) = t.next_offset

abbrev pub transfer_size : Option Transfer → ℕ
transfer_size none = 0
transfer_size (some t) = t.size

abbrev absent : {A : Type 0} → Option A → Bool
absent none = true
absent (some a) = false

module _ {Op : Type 0} where
  unfoldable pub inflight_subscribe : Option (Action × Op) → Bool
  unfolding is_subscribe
  inflight_subscribe none = false
  inflight_subscribe (some (a, op)) = is_subscribe a

  unfoldable pub initial : Bytes → Config → Service Op
  initial prefix config = record {
    prefix = prefix;
    inflight = none;
    pending = none;
    startup_publish = none;
    subscribed = false;
    state = State.idle;
    transfer = none;
    request = none;
    capacity = config.capacity;
    max_chunk_size = config.max_chunk_size;
    max_rx_packet_size = 0;
    write_size = config.write_size;
  }

  unfoldable pub new_service : Bytes → Config → Result CreateError (Service Op)
  unfolding multiple_of topic initial
  new_service prefix config =
      if config.write_size == 0
        || (config.max_chunk_size == 0 || not (multiple_of config.max_chunk_size config.write_size))
      then err invalid_chunk_size
      else do
        fail_if (ltb max_topic_bytes (length prefix)) (topic_error buffer_too_small)
        _ ← map_err topic_error (topic prefix manifest_suffix)
        _ ← map_err topic_error (topic prefix status_suffix)
        _ ← map_err topic_error (topic prefix chunk_suffix)
        ok (initial prefix config)

  -- While a subscription is queued or under way, a status waits for it.
  unfoldable pub deferred : Action → Service Op → Service Op
  deferred (publish code) s = record s { startup_publish = some code }
  deferred subscribe s = s

  unfoldable pub queue : Action → Service Op → Service Op
  unfolding deferred some_subscribe inflight_subscribe
  queue action s =
      if some_subscribe s.pending || inflight_subscribe s.inflight
      then deferred action s
      else record s { pending = some action }

  unfoldable pub current_code : Service Op → StatusCode
  unfolding state_code
  current_code s = state_code s.state

  unfoldable pub replay_status : Service Op → Option StatusCode
  unfolding current_code is_idle
  replay_status s = if is_idle s.state then none else some (current_code s)

  unfoldable pub status_with : StatusCode → Service Op → Status
  status_with code s = record {
    state = s.state;
    code = code;
    id = transfer_id s.transfer;
    next_offset = transfer_offset s.transfer;
    size = transfer_size s.transfer;
    mtu = s.max_chunk_size;
    write_size = s.write_size;
  }

  unfoldable pub status : Service Op → Status
  unfolding status_with current_code
  status s = status_with (current_code s) s

  unfoldable pub is_complete : Service Op → Bool
  unfolding is_complete_state
  is_complete s =
      is_complete_state s.state
      && (absent s.request && (absent s.pending && (absent s.inflight && absent s.startup_publish)))

  unfoldable pub disconnected_startup : ConnectEvent → Service Op → Service Op
  disconnected_startup connected s = record s { inflight = none; subscribed = false }
  disconnected_startup reconnected s = s

  unfoldable pub queue_replay : Option StatusCode → Service Op → Service Op
  unfolding queue
  queue_replay none s = s
  queue_replay (some code) s = queue (publish code) s

  unfoldable pub startup : Bool → Option StatusCode → Service Op → Service Op
  unfolding queue queue_replay
  startup true replay s = queue_replay replay (record s { startup_publish = none })
  startup false replay s = queue subscribe (record s { startup_publish = replay })

  unfoldable pub begin_startup : ConnectEvent → Service Op → Service Op
  unfolding startup disconnected_startup replay_status
  begin_startup event s =
      let s' = disconnected_startup event s in startup s'.subscribed (replay_status s) s'

  unfoldable pub abort : Service Op → Service Op × Bool
  unfolding is_active queue
  abort s =
      if is_active s.state
      then (
        queue (publish StatusCode.error) (record s { state = State.error; request = none }),
        true,
      )
      else (s, false)

  unfoldable pub finished : PendingRequest → Transfer → Service Op → Service Op
  unfolding queue
  finished prepare t s = queue (publish accepted) (record s { state = ready })
  finished (write next_offset true) t s =
      queue (publish StatusCode.complete)
        (record s { transfer = some (record t { next_offset = t.size }); state = State.complete })
  finished (write next_offset false) t s =
      queue (publish accepted)
        (record s { transfer = some (record t { next_offset = next_offset }); state = ready })

  unfoldable pub completed :
      Bool → Option PendingRequest → Option Transfer → Service Op → Service Op
  unfolding finished queue
  completed stored none t s = s
  completed stored (some r) none s =
      queue (publish StatusCode.error) (record s { request = none; state = State.error })
  completed false (some r) (some t) s =
      queue (publish storage) (record s { request = none; state = State.error })
  completed true (some r) (some t) s = finished r t (record s { request = none })

  unfoldable pub complete_request : Bool → Service Op → Service Op
  unfolding completed
  complete_request stored s = completed stored s.request s.transfer s
