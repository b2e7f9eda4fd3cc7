-- ===== src/Outbound/Send/Order.antt =====
-- Which entry is written next.
use mathlib.Core.List.{append_assoc}
use mathlib.Core.Path.{ap₂}
use minimq.Outbound.{
  Outbound, OutboundStep, PendingControl, PendingRelease, RetainedPacket, SendState, any,
  control_step, flush_pending, release_step, retained_step, sent, total, write, write_offset,
}
use minimq.Outbound.Send.{
  control_scan, first_of, map_option, next_step, release_scan, retained_scan, scan,
}
use minimq.Outbound.View.{total-append}
use minimq.Prelude.{
  Bool, List, Option, [], arith, false, length, length-append, none, refl, some, suc, sym, true,
  zero, ℕ, ◌++◌, ◌+◌, ◌<◌, ◌||◌, ◌∙◌, ◌∷◌, ◌≡◌,
}

is_some : {A : Type 0} → Option A → Bool
is_some none = false
is_some (some a) = true

-- The entry is offered in this pass: a started write in the first, a fresh one in the second.
unfoldable pub offered : Bool → SendState → Bool
offered in_progress flush_pending = false
offered in_progress sent = false
offered true (write zero) = false
offered true (write (suc n)) = true
offered false (write zero) = true
offered false (write (suc n)) = false

unfoldable pub busy : Bool → Outbound → Bool
unfolding offered
busy in_progress o =
    any (λ e. offered in_progress e.state) o.pending_control
    || (any (λ e. offered in_progress e.state) o.pending_release
        || any (λ e. offered in_progress e.state) o.retained)

-- How much of the entry has been written.
unfoldable pub step_written : OutboundStep → ℕ
step_written (control_step index action written) = written
step_written (release_step packet_id reason written) = written
step_written (retained_step packet_id offset len written) = written

first_of-is_some : (a b : Option OutboundStep) → is_some (first_of a b) ≡ (is_some a || is_some b)
unfolding first_of is_some
first_of-is_some (some a) b = refl
first_of-is_some none b = refl

-- One entry of a queue.
offer :
    (k : ℕ → OutboundStep) (b : Bool) (s : SendState)
    → is_some (map_option k (write_offset s b)) ≡ offered b s
unfolding map_option write_offset is_some offered
offer k b flush_pending = refl
offer k b sent = refl
offer k true (write zero) = refl
offer k true (write (suc n)) = refl
offer k false (write zero) = refl
offer k false (write (suc n)) = refl

control_scan-busy :
    (b : Bool) (i : ℕ) (es : List PendingControl)
    → is_some (control_scan b i es) ≡ any (λ e. offered b e.state) es
unfolding control_scan is_some
control_scan-busy b i [] = refl
control_scan-busy b i (e ∷ es) =
    first_of-is_some (map_option (control_step i e.action) (write_offset e.state b))
      (control_scan b (suc i) es)
    ∙ ap₂ ◌||◌ (offer (control_step i e.action) b e.state) (control_scan-busy b (suc i) es)

release_scan-busy :
    (b : Bool) (es : List PendingRelease)
    → is_some (release_scan b es) ≡ any (λ e. offered b e.state) es
unfolding release_scan is_some
release_scan-busy b [] = refl
release_scan-busy b (e ∷ es) =
    first_of-is_some (map_option (release_step e.packet_id e.reason) (write_offset e.state b))
      (release_scan b es)
    ∙ ap₂ ◌||◌ (offer (release_step e.packet_id e.reason) b e.state) (release_scan-busy b es)

retained_scan-busy :
    (b : Bool) (offset : ℕ) (es : List RetainedPacket)
    → is_some (retained_scan b offset es) ≡ any (λ e. offered b e.state) es
unfolding retained_scan is_some
retained_scan-busy b offset [] = refl
retained_scan-busy b offset (e ∷ es) =
    first_of-is_some (map_option (retained_step e.packet_id offset e.len) (write_offset e.state b))
      (retained_scan b (offset + e.len) es)
    ∙ ap₂ ◌||◌ (offer (retained_step e.packet_id offset e.len) b e.state)
        (retained_scan-busy b (offset + e.len) es)

scan-busy : (b : Bool) (o : Outbound) → is_some (scan b o) ≡ busy b o
unfolding scan busy
scan-busy b o =
    first_of-is_some (control_scan b 0 o.pending_control)
      (first_of (release_scan b o.pending_release) (retained_scan b 0 o.retained))
    ∙ ap₂ ◌||◌ (control_scan-busy b 0 o.pending_control) (
        first_of-is_some (release_scan b o.pending_release) (retained_scan b 0 o.retained)
        ∙ ap₂ ◌||◌ (release_scan-busy b o.pending_release) (retained_scan-busy b 0 o.retained))

-- What a pass writes: the first goes on with what has been started, the second starts afresh.
abbrev pub Pass : Bool → ℕ → Type 0
Pass true written = 0 < written
Pass false written = written ≡ 0

-- The step is that of an entry `e`: with its content, with as much written as the entry says, and
-- for the queue of control packets at the entry's index, for the retained packets at the place where
-- the packet lies in the buffer, behind those in front of it.
abbrev pub Names : Outbound → OutboundStep → Type 0
Names o (control_step index action written) =
    (front back : List PendingControl) × (e : PendingControl) × (o.pending_control
      ≡ front ++ (e ∷ back))
    × (index ≡ length front)
    × (e.action ≡ action)
    × (e.state ≡ write written)
Names o (release_step packet_id reason written) =
    (front back : List PendingRelease) × (e : PendingRelease) × (o.pending_release
      ≡ front ++ (e ∷ back))
    × (e.packet_id ≡ packet_id)
    × (e.reason ≡ reason)
    × (e.state ≡ write written)
Names o (retained_step packet_id offset len written) =
    (front back : List RetainedPacket) × (e : RetainedPacket) × (o.retained ≡ front ++ (e ∷ back))
    × (offset ≡ total front)
    × (e.packet_id ≡ packet_id)
    × (e.len ≡ len)
    × (e.state ≡ write written)

abbrev pub Offers : Bool → Outbound → OutboundStep → Type 0
Offers b o step = Names o step × Pass b (step_written step)

Given : (OutboundStep → Type 0) → Option OutboundStep → Type 0
Given P none = Unit
Given P (some step) = P step

first_of-Given :
    (P : OutboundStep → Type 0) (a b : Option OutboundStep)
    → Given P a
    → Given P b
    → Given P (first_of a b)
unfolding first_of Given
first_of-Given P (some a) b h g = h
first_of-Given P none b h g = g

offer-Given :
    (P : OutboundStep → Type 0) (k : ℕ → OutboundStep) (b : Bool) (s : SendState)
    → ((n : ℕ) → s ≡ write n → Pass b n → P (k n))
    → Given P (map_option k (write_offset s b))
unfolding map_option write_offset Given
offer-Given P k b flush_pending h = tt
offer-Given P k b sent h = tt
offer-Given P k true (write zero) h = tt
offer-Given P k false (write zero) h = h 0 refl refl
offer-Given P k true (write (suc n)) h = h (suc n) refl (omega arith)
offer-Given P k false (write (suc n)) h = tt

one_more : {A : Type 0} (front es : List A) (e : A) → front ++ (e ∷ es) ≡ (front ++ (e ∷ [])) ++ es
one_more front es e = sym (append_assoc front (e ∷ []) es)

control_scan-Offers :
    (b : Bool) (o : Outbound) (front es : List PendingControl) (i : ℕ)
    → o.pending_control ≡ front ++ es
    → i ≡ length front
    → Given (Offers b o) (control_scan b i es)
unfolding control_scan Given step_written
control_scan-Offers b o front [] i h placed = tt
control_scan-Offers b o front (e ∷ es) i h placed =
    first_of-Given (Offers b o) (map_option (control_step i e.action) (write_offset e.state b))
      (control_scan b (suc i) es)
      (offer-Given (Offers b o) (control_step i e.action) b e.state
        (λ n same pass. ((front, es, e, h, placed, refl, same), pass)))
      (control_scan-Offers b o (front ++ (e ∷ [])) es (suc i) (h ∙ one_more front es e)
        (omega (arith, placed, length-append front (e ∷ []))))

release_scan-Offers :
    (b : Bool) (o : Outbound) (front es : List PendingRelease)
    → o.pending_release ≡ front ++ es
    → Given (Offers b o) (release_scan b es)
unfolding release_scan Given step_written
release_scan-Offers b o front [] h = tt
release_scan-Offers b o front (e ∷ es) h =
    first_of-Given (Offers b o)
      (map_option (release_step e.packet_id e.reason) (write_offset e.state b)) (release_scan b es)
      (offer-Given (Offers b o) (release_step e.packet_id e.reason) b e.state
        (λ n same pass. ((front, es, e, h, refl, refl, same), pass)))
      (release_scan-Offers b o (front ++ (e ∷ [])) es (h ∙ one_more front es e))

retained_scan-Offers :
    (b : Bool) (o : Outbound) (front es : List RetainedPacket) (offset : ℕ)
    → o.retained ≡ front ++ es
    → offset ≡ total front
    → Given (Offers b o) (retained_scan b offset es)
unfolding retained_scan Given step_written
retained_scan-Offers b o front [] offset h placed = tt
retained_scan-Offers b o front (e ∷ es) offset h placed =
    first_of-Given (Offers b o)
      (map_option (retained_step e.packet_id offset e.len) (write_offset e.state b))
      (retained_scan b (offset + e.len) es)
      (offer-Given (Offers b o) (retained_step e.packet_id offset e.len) b e.state
        (λ n same pass. ((front, es, e, h, placed, refl, refl, same), pass)))
      (retained_scan-Offers b o (front ++ (e ∷ [])) es (offset + e.len) (h ∙ one_more front es e)
        (omega (arith, placed, total-append front (e ∷ []))))

scan-Offers : (b : Bool) (o : Outbound) → Given (Offers b o) (scan b o)
unfolding scan
scan-Offers b o =
    first_of-Given (Offers b o) (control_scan b 0 o.pending_control)
      (first_of (release_scan b o.pending_release) (retained_scan b 0 o.retained))
      (control_scan-Offers b o [] o.pending_control 0 refl refl)
      (first_of-Given (Offers b o) (release_scan b o.pending_release) (retained_scan b 0 o.retained)
        (release_scan-Offers b o [] o.pending_release refl)
        (retained_scan-Offers b o [] o.retained 0 refl refl))

first_step :
    (P : OutboundStep → Type 0) (a b : Option OutboundStep)
    → Given P a
    → is_some a ≡ true
    → (step : OutboundStep) × (first_of a b ≡ some step) × P step
unfolding first_of Given is_some
first_step P (some a) b h hit = (a, refl, h)
first_step P none b h hit = absurd (ground arith)

second_step :
    (P : OutboundStep → Type 0) (a b : Option OutboundStep)
    → is_some a ≡ false
    → Given P b
    → is_some b ≡ true
    → (step : OutboundStep) × (first_of a b ≡ some step) × P step
unfolding first_of Given is_some
second_step P (some a) b miss h hit = absurd (ground arith)
second_step P none (some b) miss h hit = (b, refl, h)
second_step P none none miss h hit = absurd (ground arith)

no_step : (a b : Option OutboundStep) → (is_some a || is_some b) ≡ false → first_of a b ≡ none
unfolding first_of is_some
no_step (some a) b h = absurd (ground arith)
no_step none none h = refl
no_step none (some b) h = absurd (ground arith)

-- `next_step` gives no step when no entry has bytes to write. When an entry has been started, it
-- gives the step of a started entry; when none has been started and an entry has bytes to write, the
-- step of an entry from its first byte.
pub next_step-Offers :
    (o : Outbound)
    → ((busy true o || busy false o) ≡ false → next_step o ≡ none)
      × (busy true o ≡ true
          → (step : OutboundStep) × (next_step o ≡ some step) × Offers true o step)
      × (busy true o ≡ false
          → busy false o ≡ true
          → (step : OutboundStep) × (next_step o ≡ some step) × Offers false o step)
unfolding next_step
next_step-Offers o = (
  λ idle.
      no_step (scan true o) (scan false o) (ap₂ ◌||◌ (scan-busy true o) (scan-busy false o) ∙ idle),
  λ started.
      first_step (Offers true o) (scan true o) (scan false o) (scan-Offers true o)
        (scan-busy true o ∙ started),
  λ unstarted fresh.
      second_step (Offers false o) (scan true o) (scan false o) (scan-busy true o ∙ unstarted)
        (scan-Offers false o) (scan-busy false o ∙ fresh),
)
