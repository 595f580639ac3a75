-- ===== src/MessageBus/Shutdown.antt =====
-- What is left of a bus (utils/message_bus.rs) after `stop_all`.
use netfabric_bgp_router.Prelude.{
  ℕ, ◌≡◌, ◌⊎◌, inl, inr, sym, ◌∙◌, none, some, List, [], ◌∷◌, Listed, arith, Option-cases,
}
use mathlib.Core.Option.{none-ne-some}
use netfabric_bgp_router.Prelude.HashMap
use netfabric_bgp_router.Platform.{Platform}
use netfabric_bgp_router.Channel.{Store}
use netfabric_bgp_router.MessageBus.{
  MessageBus, failed, channel_not_found, stop, stop_each, stop_all, publish, subscribe,
}

module _ (p : Platform) where
  -- Every receiver on the bus has a sender.
  abbrev pub IsPaired : MessageBus p → Type 0
  IsPaired bus =
      (id : p.Uuid) (rx : ℕ)
      → HashMap.get p.uuid_discrete id bus.receivers ≡ some rx
      → (tx : ℕ) × (HashMap.get p.uuid_discrete id bus.senders ≡ some tx)

  -- Neither end of the channel is on the bus.
  abbrev Gone : MessageBus p → p.Uuid → Type 0
  Gone bus id =
      (HashMap.get p.uuid_discrete id bus.senders ≡ none)
      × (HashMap.get p.uuid_discrete id bus.receivers ≡ none)

  stop-Gone :
      (bus : MessageBus p) (store : Store p) (id j : p.Uuid)
      → Gone bus j ⊎ (id ≡ j)
      → Gone (stop p bus store id).0 j
  unfolding stop
  stop-Gone bus store id j h = (
    ground (arith, HashMap.get-remove p.uuid_discrete id j bus.senders),
    ground (arith, HashMap.get-remove p.uuid_discrete id j bus.receivers),
  )

  stop_each-Gone :
      (ids : List p.Uuid) (bus : MessageBus p) (store : Store p) (j : p.Uuid)
      → Gone bus j ⊎ Listed j ids
      → Gone (stop_each p bus store ids).0 j
  unfolding stop_each
  stop_each-Gone [] bus store j (inl h) = h
  stop_each-Gone [] bus store j (inr l) = absurd l
  stop_each-Gone (id ∷ ids) bus store j (inl h) =
      stop_each-Gone ids (stop p bus store id).0 (stop p bus store id).1 j
        (inl (stop-Gone bus store id j (inl h)))
  stop_each-Gone (id ∷ ids) bus store j (inr (inl here)) =
      stop_each-Gone ids (stop p bus store id).0 (stop p bus store id).1 j
        (inl (stop-Gone bus store id j (inr here)))
  stop_each-Gone (id ∷ ids) bus store j (inr (inr there)) =
      stop_each-Gone ids (stop p bus store id).0 (stop p bus store id).1 j (inr there)

  Gone-or_Listed :
      (bus : MessageBus p) (j : p.Uuid)
      → IsPaired bus
      → Gone bus j ⊎ Listed j (HashMap.keys bus.senders)
  Gone-or_Listed bus j paired = elim (Option-cases (HashMap.get p.uuid_discrete j bus.senders)) [
    | inr (tx, e) ↦ inr (HashMap.get-Listed-keys p.uuid_discrete j bus.senders e)
    | inl e ↦ elim (Option-cases (HashMap.get p.uuid_discrete j bus.receivers)) [
      | inl e' ↦ inl (e, e')
      | inr (rx, e') ↦ let (tx, at) = paired j rx e' in absurd (none-ne-some tx (sym e ∙ at))
    ]
  ]

  -- If every receiver on the bus has a sender there, then after `stop_all` nobody can publish or
  -- subscribe: each identifier is answered with an error.
  pub stop_all_lem :
      (bus : MessageBus p) (store : Store p)
      → IsPaired bus
      → (id : p.Uuid)
      → (publish p (stop_all p bus store).0 id ≡ failed (channel_not_found id))
        × ((subscribe p (stop_all p bus store).0 id).0 ≡ failed (channel_not_found id))
  unfolding stop_all publish subscribe
  stop_all_lem bus store paired id =
      let (s, r) =
        stop_each-Gone (HashMap.keys bus.senders) bus store id (Gone-or_Listed bus id paired) in
      (rw (s, publish), rw (r, subscribe))
