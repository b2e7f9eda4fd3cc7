-- ===== src/Outbound.antt =====
-- minimq/src/mqtt_client/outbound.rs: the packets that the client still has to send, or to send
-- again: control packets by value, publications and subscriptions as bytes in the transmit buffer,
-- and PUBRELs by value.
pub mod ListVec
pub mod Queues
pub mod Send
pub mod View
use minimq.Control.{ControlAction}
use minimq.Errors.{ResourceError, buffer_too_small}
use minimq.Prelude.{
  Bool, List, Option, Result, [], drop, err, false, if◌then◌else◌, leb, length, ltb, min, none, not,
  ok, some, suc, take, true, write_at, zero, ℕ, ◌&&◌, ◌++◌, ◌+◌, ◌-◌, ◌<◌, ◌==◌, ◌||◌, ◌∷◌, ◌≡◌,
  ◌≤◌,
}
use minimq.Reason.{ReasonCode}
use minimq.Ser.{max_fixed_header_size}
use minimq.Control.{ping_req}

-- `heapless::Vec<T, N>`: its contents are a list, and these operations are the crate's.
pub record VecOps : Type 1 where
  pub vec_push : {A : Type 0} → ℕ → A → List A → Option (List A)
  pub remove : {A : Type 0} → ℕ → List A → List A
  pub swap_remove : {A : Type 0} → ℕ → List A → List A
  pub vec_push_room :
      {A : Type 0} (n : ℕ) (x : A) (xs : List A)
      → length xs < n
      → vec_push n x xs ≡ some (xs ++ (x ∷ []))
  pub vec_push_full :
      {A : Type 0} (n : ℕ) (x : A) (xs : List A) → n ≤ length xs → vec_push n x xs ≡ none
  pub remove_at :
      {A : Type 0} (xs ys : List A) (x : A) → remove (length xs) (xs ++ (x ∷ ys)) ≡ xs ++ ys
  pub swap_remove_last :
      {A : Type 0} (xs : List A) (x : A) → swap_remove (length xs) (xs ++ (x ∷ [])) ≡ xs
  pub swap_remove_inner :
      {A : Type 0} (xs ys : List A) (x y : A)
      → swap_remove (length xs) (xs ++ (x ∷ (ys ++ (y ∷ [])))) ≡ xs ++ (y ∷ ys)

-- `operations.rs` and `session/state.rs` identify an operation by its kind.
pub data OpKind : Type 0 where
  publish_at_least_once publish_exactly_once subscribe_op unsubscribe_op : OpKind

-- `derive(PartialEq)`.
unfoldable pub same_kind : OpKind → OpKind → Bool
same_kind publish_at_least_once publish_at_least_once = true
same_kind publish_exactly_once publish_exactly_once = true
same_kind subscribe_op subscribe_op = true
same_kind unsubscribe_op unsubscribe_op = true
same_kind k l = false

unfoldable pub is_publish : OpKind → Bool
is_publish publish_at_least_once = true
is_publish publish_exactly_once = true
is_publish k = false

abbrev pub max_retained : ℕ
max_retained = 8

abbrev pub max_pending_control : ℕ
max_pending_control = 8

abbrev pub max_pending_release : ℕ
max_pending_release = 8

pub data SendState : Type 0 where
  write : ℕ → SendState
  flush_pending sent : SendState

unfoldable pub is_flush : SendState → Bool
is_flush flush_pending = true
is_flush s = false

unfoldable pub is_sent : SendState → Bool
is_sent sent = true
is_sent s = false

unfoldable pub set_written : ℕ → ℕ → SendState
set_written written len = if leb len written then flush_pending else write written

-- `(written != 0) == in_progress`.
unfoldable pub write_offset : SendState → Bool → Option ℕ
write_offset (write zero) true = none
write_offset (write zero) false = some zero
write_offset (write (suc n)) true = some (suc n)
write_offset (write (suc n)) false = none
write_offset flush_pending in_progress = none
write_offset sent in_progress = none

pub record PendingControl : Type 0 where
  pub action : ControlAction
  pub state : SendState

pub record PendingRelease : Type 0 where
  pub packet_id : ℕ
  pub reason : ReasonCode
  pub state : SendState

pub record RetainedPacket : Type 0 where
  pub kind : OpKind
  pub packet_id : ℕ
  pub len : ℕ
  pub state : SendState

pub data OutboundStep : Type 0 where
  -- index, action, written
  control_step : ℕ → ControlAction → ℕ → OutboundStep
  -- packet identifier, reason, written
  release_step : ℕ → ReasonCode → ℕ → OutboundStep
  -- packet identifier, offset, length, written
  retained_step : ℕ → ℕ → ℕ → ℕ → OutboundStep

pub record Outbound : Type 0 where
  pub buf : List ℕ
  pub connect_workspace : ℕ
  pub pending_control : List PendingControl
  pub retained : List RetainedPacket
  pub pending_release : List PendingRelease

-- The iterator operations.
module _ {ℓ} {A : Type ℓ} where
  abbrev pub any : (A → Bool) → List A → Bool
  any p [] = false
  any p (x ∷ xs) = p x || any p xs

  abbrev pub position : (A → Bool) → List A → Option ℕ
  position p [] = none
  position p (x ∷ xs) =
      let rest = position p xs in
      if p x then some 0 else elim rest [ none ↦ none | some i ↦ some (suc i) ]

  -- `retain`.
  abbrev pub filter : (A → Bool) → List A → List A
  filter p [] = []
  filter p (x ∷ xs) = let rest = filter p xs in if p x then x ∷ rest else rest

  abbrev pub is_empty : List A → Bool
  is_empty [] = true
  is_empty (x ∷ xs) = false

  -- `iter_mut().find(..)`: the first element that matches is changed.
  abbrev pub modify_first : (A → Bool) → (A → A) → List A → List A
  modify_first p f [] = []
  modify_first p f (x ∷ xs) = let rest = modify_first p f xs in if p x then f x ∷ xs else x ∷ rest

  abbrev pub modify_at : ℕ → (A → A) → List A → List A
  modify_at i f [] = []
  modify_at zero f (x ∷ xs) = f x ∷ xs
  modify_at (suc i) f (x ∷ xs) = x ∷ modify_at i f xs

abbrev pub total : List RetainedPacket → ℕ
total [] = 0
total (e ∷ es) = e.len + total es

-- `copy_within(src_start..src_end, dest)`.
abbrev pub copy_within : ℕ → ℕ → ℕ → List ℕ → List ℕ
copy_within src_start src_end dest buf =
    write_at dest (take (src_end - src_start) (drop src_start buf)) buf

unfoldable pub new_outbound : List ℕ → Outbound
new_outbound buf = record {
  buf = buf;
  connect_workspace = 0;
  pending_control = [];
  retained = [];
  pending_release = [];
}

unfoldable pub clear_inflight : Outbound → Outbound
clear_inflight o = record o { pending_control = []; retained = []; pending_release = [] }

unfoldable pub has_pending_state : Outbound → Bool
has_pending_state o =
    not (is_empty o.pending_control)
    || not (is_empty o.retained)
    || not (is_empty o.pending_release)

unfoldable pub is_quiescent : Outbound → Bool
unfolding has_pending_state
is_quiescent o = not (has_pending_state o)

unfoldable pub retained_full : Outbound → Bool
retained_full o = length o.retained == max_retained

unfoldable pub retained_bytes : Outbound → ℕ
retained_bytes o = total o.retained

unfoldable pub capacity : Outbound → ℕ
capacity o = length o.buf

unfoldable pub max_inflight : ℕ
max_inflight = min max_retained max_pending_release

unfoldable pub scratch_len : Outbound → ℕ
unfolding retained_bytes
scratch_len o = length o.buf - retained_bytes o

-- `set_connect_workspace` keeps the subtraction from wrapping.
unfoldable pub retained_capacity : Outbound → ℕ
retained_capacity o = length o.buf - o.connect_workspace

unfoldable pub can_retain : Outbound → Bool
unfolding retained_bytes retained_capacity
can_retain o =
    ltb (length o.retained) max_retained
    && leb max_fixed_header_size (retained_capacity o - retained_bytes o)

-- The part of the buffer behind the retained packets.
unfoldable pub scratch_space : Outbound → List ℕ
unfolding retained_bytes
scratch_space o = drop (retained_bytes o) o.buf

-- `checked_sub`, then the test of what is retained.
unfoldable pub set_connect_workspace : ℕ → Outbound → Outbound × Result ResourceError (Unit {0})
unfolding retained_bytes
set_connect_workspace len o =
    if ltb (length o.buf) len
    then (o, err buffer_too_small)
    else if ltb (length o.buf - len) (retained_bytes o)
    then (o, err buffer_too_small)
    else (record o { connect_workspace = len }, ok tt)

is_ping : ControlAction → Bool
is_ping ping_req = true
is_ping a = false

is_unsent_pingreq : PendingControl → Bool
unfolding is_sent is_ping
is_unsent_pingreq p = is_ping p.action && not (is_sent p.state)

unfoldable pub has_pending_pingreq : Outbound → Bool
unfolding is_unsent_pingreq
has_pending_pingreq o = any is_unsent_pingreq o.pending_control

unfoldable pub holds_op : OpKind → ℕ → RetainedPacket → Bool
unfolding same_kind
holds_op kind packet_id e = same_kind e.kind kind && (e.packet_id == packet_id)

unfoldable pub has_retained : ℕ → Outbound → Bool
has_retained packet_id o = any (λ e. e.packet_id == packet_id) o.retained

unfoldable pub has_pending_release : ℕ → Outbound → Bool
has_pending_release packet_id o = any (λ p. p.packet_id == packet_id) o.pending_release
