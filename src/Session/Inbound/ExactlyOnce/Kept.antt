-- ===== src/Session/Inbound/ExactlyOnce/Kept.antt =====
-- Which packets leave the identifiers that wait for their release as they are, and the bound on the
-- deliveries.
use mathlib.Core.Path.{ap₂, subst}
use minimq.Control.{ControlAction, check_control_packet_size, check_pubrel_size}
use minimq.Errors.{Error, ProtocolError, from_protocol}
use minimq.Outbound.{
  Outbound, VecOps, any, has_pending_release, position, publish_at_least_once, publish_exactly_once,
  subscribe_op, unsubscribe_op,
}
use minimq.Outbound.Queues.{ack_packet, ack_release, queue_control, queue_release}
use minimq.Outbound.View.{absent, find, found}
use minimq.Outbound.View.Bounds.{last_split}
use minimq.Prelude.{
  Bool, Bool-cases, List, Option, Result, [], ap, arith, err, false, if◌then◌else◌, inl, inr,
  length, ltb, ltb→lt, map_err, none, ok, refl, some, sym, true, ℕ, ◌&&◌, ◌++◌, ◌==◌, ◌||◌, ◌∙◌,
  ◌∷◌, ◌≡◌,
}
use minimq.Reason.{ReasonCode, packet_id_in_use, packet_id_not_found, receive_max_exceeded, success}
use minimq.Session.{Client, max_inbound_qos2, with_outbound, with_pending}
use minimq.Session.Inbound.{
  Handled, HandledPacket, after_ok, conn_ack, disconnect, handle_packet, if_acked, on_exactly_once,
  on_new, on_pub_rec, on_pub_rel, on_publish, ping_resp, pub_ack, pub_comp, pub_rec, pub_rel,
  publish, queued, release, respond, restore_quota, sub_ack, unsub_ack, verdict, verdicts,
}
use minimq.Session.Inbound.ExactlyOnce.{awaits, delivers, publishes, releases}
use minimq.Wire.{at_least_once, at_most_once, exactly_once}

abbrev ids : Client → List ℕ
ids c = c.session.pending_server_packet_ids

after_ok-ids :
    (c : Client) (r : Result (Error ⊥) (Unit {0})) (k : Handled)
    → ids k.0 ≡ ids c
    → ids (after_ok c r k).0 ≡ ids c
unfolding after_ok
after_ok-ids c (ok u) k h = h
after_ok-ids c (err e) k h = refl

queued-ids :
    (c : Client) (q : Outbound × Result ProtocolError (Unit {0})) (r : Result (Error ⊥) Bool)
    → ids (queued c q (c, r)).0 ≡ ids c
unfolding queued with_outbound
queued-ids c (o, ok u) r = refl
queued-ids c (o, err e) r = refl

if_acked-ids :
    (c : Client) (q : Outbound × Bool) (k : Client → Handled)
    → ((o : Outbound) → ids (k (with_outbound c o)).0 ≡ ids c)
    → ids (if_acked c q k).0 ≡ ids c
unfolding if_acked with_outbound
if_acked-ids c (o, true) k h = h o
if_acked-ids c (o, false) k h = refl

module _ (v : VecOps) where
  respond-ids :
      (action : ControlAction) (r : Bool) (c : Client) → ids (respond v action r c).0 ≡ ids c
  unfolding respond
  respond-ids action r c =
      after_ok-ids c
        (map_err from_protocol (check_control_packet_size c.runtime.maximum_packet_size action))
        (queued c (queue_control v action c.session.outbound) (c, ok r))
        (queued-ids c (queue_control v action c.session.outbound) (ok r))

  release-ids : (packet_id : ℕ) (c : Client) → ids (release v packet_id c).0 ≡ ids c
  unfolding release
  release-ids packet_id c =
      after_ok-ids c
        (map_err from_protocol (check_pubrel_size c.runtime.maximum_packet_size packet_id success))
        (queued c (queue_release v packet_id success c.session.outbound) (c, ok false))
        (queued-ids c (queue_release v packet_id success c.session.outbound) (ok false))

  on_pub_rec-ids :
      (packet_id : ℕ) (reason : ReasonCode) (c : Client) (q : Outbound × Bool)
      → ids (on_pub_rec v packet_id reason c q).0 ≡ ids c
  unfolding on_pub_rec restore_quota with_outbound
  on_pub_rec-ids packet_id reason c (o, true) =
      let c' = restore_quota (with_outbound c o) in
      after_ok-ids c' (verdict reason) (release v packet_id c') (release-ids packet_id c')
  on_pub_rec-ids packet_id reason c (o, false) =
      elim (Bool-cases (has_pending_release packet_id o)) [
        | inl e ↦
            rw e
              (after_ok-ids (with_outbound c o) (verdict reason) (with_outbound c o, ok false) refl)
        | inr e ↦ rw e refl
      ]

pub any-append {ℓ} :
    {A : Type ℓ} (p : A → Bool) (xs ys : List A) → any p (xs ++ ys) ≡ (any p xs || any p ys)
any-append p [] ys = refl
any-append p (x ∷ xs) ys = elim (Bool-cases (p x)) [
  | inl e ↦ rw e refl
  | inr e ↦ rw e (any-append p xs ys)
]

or-true : (b c d : Bool) → (b || (false || (c || (d || false)))) ≡ true → (b || (d || c)) ≡ true
or-true true c d h = refl
or-true false true true h = refl
or-true false true false h = refl
or-true false false true h = refl
or-true false false false h = h

-- Taking out an element that does not match keeps one that does.
any-swap_remove :
    (v : VecOps) (p : ℕ → Bool) (front back : List ℕ) (x : ℕ)
    → p x ≡ false
    → any p (front ++ (x ∷ back)) ≡ true
    → any p (v.swap_remove (length front) (front ++ (x ∷ back))) ≡ true
any-swap_remove v p front back x miss h = elim (last_split back) [
  | inl e ↦ rw (e, v.swap_remove_last front x) (alone e)
  | inr (ys, y, e) ↦ rw (e, v.swap_remove_inner front ys x y) (inner ys y e)
]
  where
    parts : (any p front || (p x || any p back)) ≡ true
    parts = sym (any-append p front (x ∷ back)) ∙ h

    alone : back ≡ [] → any p front ≡ true
    alone e = elim (Bool-cases (any p front)) [
      | inl t ↦ t
      | inr f ↦ absurd (ground (arith, f, miss, ap (any p) e, parts))
    ]

    inner : (ys : List ℕ) (y : ℕ) → back ≡ ys ++ (y ∷ []) → any p (front ++ (y ∷ ys)) ≡ true
    inner ys y e =
        any-append p front (y ∷ ys)
        ∙ or-true (any p front) (any p ys) (p y) (
            sym
              (ap₂ (λ b l. any p front || (b || l)) miss (ap (any p) e ∙ any-append p ys (y ∷ [])))
            ∙ parts)

or_last : (b c : Bool) → c ≡ true → (b || (c || false)) ≡ true
or_last true c h = refl
or_last false c h = ap (λ x. x || false) h

pub any-last : (xs : List ℕ) (id : ℕ) → any (λ i. i == id) (xs ++ (id ∷ [])) ≡ true
any-last xs id =
    any-append (λ i. i == id) xs (id ∷ [])
    ∙ or_last (any (λ i. i == id) xs) (id == id) (ground arith)

pub pushed-append :
    (v : VecOps) (n x : ℕ) (xs ys : List ℕ) → v.vec_push n x xs ≡ some ys → ys ≡ xs ++ (x ∷ [])
pushed-append v n x xs ys e = elim (Bool-cases (ltb (length xs) n)) [
  | inl room ↦ ground (arith, e, v.vec_push_room n x xs (ltb→lt _ _ room))
  | inr full ↦ absurd (ground (arith, e, v.vec_push_full n x xs (ground arith)))
]

pub respond-delivers :
    (v : VecOps) (action : ControlAction) (c : Client) → delivers (respond v action false c) ≡ false
unfolding respond after_ok queued delivers
respond-delivers v action c =
    after (map_err from_protocol (check_control_packet_size c.runtime.maximum_packet_size action))
      (queue_control v action c.session.outbound)
  where
    after :
        (r : Result (Error ⊥) (Unit {0})) (q : Outbound × Result ProtocolError (Unit {0}))
        → delivers (after_ok c r (queued c q (c, ok false))) ≡ false
    after (err e) q = refl
    after (ok u) (o, ok w) = refl
    after (ok u) (o, err e) = refl

and_false : (b : Bool) → (b && false) ≡ false
and_false true = refl
and_false false = refl

module _ (v : VecOps) (packet_id : ℕ) where
  pub respond-awaits :
      (action : ControlAction) (r : Bool) (c : Client)
      → awaits packet_id (respond v action r c).0 ≡ awaits packet_id c
  unfolding awaits
  respond-awaits action r c = ap (any (λ id. id == packet_id)) (respond-ids v action r c)

  pub member : (c : Client) → awaits packet_id c ≡ true → any (λ i. i == packet_id) (ids c) ≡ true
  unfolding awaits
  member c h = h

  kept : (c d : Client) → ids d ≡ ids c → awaits packet_id c ≡ true → awaits packet_id d ≡ true
  unfolding awaits
  kept c d e h = ap (any (λ id. id == packet_id)) e ∙ h

  pub_rel-awaits :
      (c : Client) (id : ℕ)
      → (id == packet_id) ≡ false
      → awaits packet_id c ≡ true
      → awaits packet_id (on_pub_rel v id c (position (λ i. i == id) (ids c))).0 ≡ true
  unfolding on_pub_rel with_pending
  pub_rel-awaits c id other h = elim (find (λ i. i == id) (ids c)) [
    | absent none_of e ↦
        rw e (respond-awaits (ControlAction.pub_comp id packet_id_not_found) false c ∙ h)
    | found front back x eq none_of hit e ↦ rw e (
        respond-awaits (ControlAction.pub_comp id success) false
          (with_pending c (v.swap_remove (length front) (ids c)))
        ∙ unfold awaits in
          subst (λ xs. any (λ i. i == packet_id) (v.swap_remove (length front) xs) ≡ true) (sym eq)
            (any-swap_remove v (λ i. i == packet_id) front back x (ground (arith, hit, other))
              (ap (any (λ i. i == packet_id)) (sym eq) ∙ h)))
  ]

  pub on_new-awaits :
      (c : Client) (id : ℕ) (q : Option (List ℕ))
      → ((xs : List ℕ) → q ≡ some xs → any (λ i. i == packet_id) xs ≡ true)
      → (q ≡ none → awaits packet_id c ≡ true)
      → awaits packet_id (on_new v id c q).0 ≡ true
  unfolding on_new with_pending
  on_new-awaits c id (some xs) h g =
      respond-awaits (ControlAction.pub_rec id success) true (with_pending c xs)
      ∙ (unfold awaits in h xs refl)
  on_new-awaits c id none h g =
      respond-awaits (ControlAction.pub_rec id receive_max_exceeded) false c ∙ g refl

  pub exactly_once-awaits :
      (c : Client) (id : ℕ)
      → awaits packet_id c ≡ true
      → awaits packet_id (on_exactly_once v id c).0 ≡ true
  unfolding on_exactly_once
  exactly_once-awaits c id h = elim (Bool-cases (any (λ i. i == id) (ids c))) [
    | inl e ↦ rw e (respond-awaits (ControlAction.pub_rec id success) false c ∙ h)
    | inr e ↦ rw e (on_new-awaits c id (v.vec_push max_inbound_qos2 id (ids c)) still (λ _. h))
  ]
    where
      still :
          (xs : List ℕ)
          → v.vec_push max_inbound_qos2 id (ids c) ≡ some xs
          → any (λ i. i == packet_id) xs ≡ true
      still xs eq =
          ap (any (λ i. i == packet_id)) (pushed-append v max_inbound_qos2 id (ids c) xs eq)
          ∙ any-append (λ i. i == packet_id) (ids c) (id ∷ [])
          ∙ ap (λ b. b || any (λ i. i == packet_id) (id ∷ [])) (member c h)

  -- Only its release takes an identifier from the list.
  pub handle-awaits :
      (c : Client) (packet : HandledPacket)
      → releases packet_id packet ≡ false
      → awaits packet_id c ≡ true
      → awaits packet_id (handle_packet v c packet).0 ≡ true
  unfolding handle_packet releases on_publish restore_quota with_outbound
  handle-awaits c conn_ack other h = h
  handle-awaits c ping_resp other h = kept c _ refl h
  handle-awaits c disconnect other h = h
  handle-awaits c (sub_ack id codes) other h =
      kept c _
        (if_acked-ids c (ack_packet v subscribe_op id c.session.outbound)
          (λ d. after_ok d (verdicts codes) (d, ok false))
          (λ o.
            after_ok-ids (with_outbound c o) (verdicts codes) (with_outbound c o, ok false) refl))
        h
  handle-awaits c (unsub_ack id codes) other h =
      kept c _
        (if_acked-ids c (ack_packet v unsubscribe_op id c.session.outbound)
          (λ d. after_ok d (verdicts codes) (d, ok false))
          (λ o.
            after_ok-ids (with_outbound c o) (verdicts codes) (with_outbound c o, ok false) refl))
        h
  handle-awaits c (pub_ack id reason) other h =
      kept c _
        (if_acked-ids c (ack_packet v publish_at_least_once id c.session.outbound)
          (λ d. after_ok (restore_quota d) (verdict reason) (restore_quota d, ok false))
          (λ o.
            after_ok-ids (restore_quota (with_outbound c o)) (verdict reason)
              (restore_quota (with_outbound c o), ok false) refl))
        h
  handle-awaits c (pub_rec id reason) other h =
      kept c _
        (on_pub_rec-ids v id reason c (ack_packet v publish_exactly_once id c.session.outbound)) h
  handle-awaits c (pub_comp id reason) other h =
      kept c _
        (if_acked-ids c (ack_release v id c.session.outbound)
          (λ d. after_ok d (verdict reason) (d, ok false))
          (λ o.
            after_ok-ids (with_outbound c o) (verdict reason) (with_outbound c o, ok false) refl))
        h
  handle-awaits c (pub_rel id) other h = pub_rel-awaits c id other h
  handle-awaits c (publish at_most_once id) other h = h
  handle-awaits c (publish at_least_once none) other h = h
  handle-awaits c (publish at_least_once (some id)) other h =
      respond-awaits
        (ControlAction.pub_ack id
          (if any (λ i. i == id) (ids c) then packet_id_in_use else success))
        true c
      ∙ h
  handle-awaits c (publish exactly_once none) other h = h
  handle-awaits c (publish exactly_once (some id)) other h = exactly_once-awaits c id h

  -- The identifier of a QoS 2 publication that awaits its release is not delivered again.
  pub awaiting_refused :
      (c : Client) (packet : HandledPacket)
      → awaits packet_id c ≡ true
      → (delivers (handle_packet v c packet) && publishes packet_id packet) ≡ false
  unfolding handle_packet on_publish on_exactly_once publishes
  awaiting_refused c (publish exactly_once (some id)) h = elim (Bool-cases (id == packet_id)) [
    | inr e ↦ rw e (and_false (delivers (on_exactly_once v id c)))
    | inl e ↦
        let same : id ≡ packet_id = ground arith in
        let present : any (λ i. i == id) (ids c) ≡ true =
          ap (λ k. any (λ i. i == k) (ids c)) same ∙ member c h in
        rw present (
          ap (λ b. b && (id == packet_id))
            (respond-delivers v (ControlAction.pub_rec id success) c))
  ]
  awaiting_refused c (publish exactly_once none) h = and_false _
  awaiting_refused c (publish at_least_once id) h = and_false _
  awaiting_refused c (publish at_most_once id) h = and_false _
  awaiting_refused c conn_ack h = and_false _
  awaiting_refused c ping_resp h = and_false _
  awaiting_refused c disconnect h = and_false _
  awaiting_refused c (sub_ack id codes) h = and_false _
  awaiting_refused c (unsub_ack id codes) h = and_false _
  awaiting_refused c (pub_ack id reason) h = and_false _
  awaiting_refused c (pub_rec id reason) h = and_false _
  awaiting_refused c (pub_comp id reason) h = and_false _
  awaiting_refused c (pub_rel id) h = and_false _
