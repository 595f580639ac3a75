-- ===== src/Network/Start.antt =====
-- `NetworkManager::start` (modules/network.rs): the routers become machines that hold a command each.
use netfabric_bgp_router.Prelude.{
  ℕ, suc, ◌≤◌, ◌<◌, ◌≡◌, ◌≢◌, refl, sym, subst, ap, ◌∙◌, true, if_pos, if_neg, none, some, List, [],
  ◌∷◌, ◌++◌, length, Listed, All, get_elem?-lt, get_elem?-append_left, get_elem?-append_last, arith,
  inl, inr, ◌⊎◌,
}
use mathlib.Core.Option.{none-ne-some}
use netfabric_bgp_router.Prelude.HashMap
use netfabric_bgp_router.Prelude.Distinct.{IsDistinct}
use netfabric_bgp_router.Platform.{Platform}
use netfabric_bgp_router.PrefixTable.{PrefixTable}
use netfabric_bgp_router.RibEntry.{BgpRibEntry}
use netfabric_bgp_router.Channel.{Store, Channel, running, blocking_send, sync_channel}
use netfabric_bgp_router.MessageBus.{MessageBus}
use netfabric_bgp_router.MessageBus.Ends.{subscribe_new}
use netfabric_bgp_router.ThreadManager.{ThreadManager}
use netfabric_bgp_router.Router.{Router}
use netfabric_bgp_router.StateMachine.Machine as Machine
use netfabric_bgp_router.StateMachine.Machine.{StateMachine, send_command}
use netfabric_bgp_router.StateMachine.Commands.{machine, with_machine, new_done}
use netfabric_bgp_router.Network.{NetworkManager, Routers, done}
use netfabric_bgp_router.Network.Machines.{Spawning, make_machines, command_each, start, stop}
use netfabric_bgp_router.Network.Links.{IsFree, with_taken, IsFree-with_taken}
use netfabric_bgp_router.Network.Commands.{Holds, senders, command_each_total}

module _ (p : Platform) where
  module _ (P : p.Uuid × StateMachine p → Type 0) where
    All-insert :
        (id : p.Uuid) (m : StateMachine p) (ms : List (p.Uuid × StateMachine p))
        → All P ms
        → P (id, m)
        → All P (HashMap.insert p.uuid_discrete id m ms)
    All-insert id m [] h new = (new, tt)
    All-insert id m ((j, w) ∷ ms) (h, hs) new = elim (p.uuid_discrete j id) [
      | yes e ↦ rw (if_pos _ e) (new, hs)
      | no ne ↦ rw (if_neg _ ne) (h, All-insert id m ms hs new)
    ]

  Listed-insert :
      (id : p.Uuid) (m : StateMachine p) (ms : List (p.Uuid × StateMachine p)) (n : ℕ)
      → Listed n (senders p (HashMap.insert p.uuid_discrete id m ms))
      → (m.command_sender ≡ n) ⊎ Listed n (senders p ms)
  Listed-insert id m [] n (inl here) = inl here
  Listed-insert id m [] n (inr there) = absurd there
  Listed-insert id m ((j, w) ∷ ms) n h = elim (p.uuid_discrete j id) [
    | yes e ↦ elim (subst (λ l. Listed n (senders p l)) (if_pos (p.uuid_discrete j id) e _ _) h) [
      | inl here ↦ inl here
      | inr there ↦ inr (inr there)
    ]
    | no ne ↦ elim (subst (λ l. Listed n (senders p l)) (if_neg (p.uuid_discrete j id) ne _ _) h) [
      | inl here ↦ inr (inl here)
      | inr there ↦ elim (Listed-insert id m ms n there) [
        | inl same ↦ inl same
        | inr old ↦ inr (inr old)
      ]
    ]
  ]

  insert-IsDistinct :
      (id : p.Uuid) (m : StateMachine p) (ms : List (p.Uuid × StateMachine p))
      → ((n : ℕ) → Listed n (senders p ms) → m.command_sender ≢ n)
      → IsDistinct (senders p ms)
      → IsDistinct (senders p (HashMap.insert p.uuid_discrete id m ms))
  insert-IsDistinct id m [] apart d = ((λ n l. absurd l), tt)
  insert-IsDistinct id m ((j, w) ∷ ms) apart (first, d) = elim (p.uuid_discrete j id) [
    | yes e ↦ rw (if_pos _ e) ((λ n l. apart n (inr l)), d)
    | no ne ↦ rw (if_neg _ ne) (
      λ n l. elim (Listed-insert id m ms n l) [
        | inl new ↦ λ same. apart w.command_sender (inl refl) (new ∙ sym same)
        | inr old ↦ first n old
      ],
      insert-IsDistinct id m ms (λ n l. apart n (inr l)) d,
    )
  ]

  -- A store with one more channel at its end holds what it held.
  Holds-grown :
      (store : Store p) (c : Channel p) (ms : List (p.Uuid × StateMachine p))
      → All (Holds p store []) ms
      → All (Holds p (store ++ (c ∷ [])) []) ms
  Holds-grown store c [] h = tt
  Holds-grown store c ((id, m) ∷ ms) (h, hs) =
      let within = get_elem?-lt store m.command_sender h in
      (get_elem?-append_left store (c ∷ []) m.command_sender within ∙ h, Holds-grown store c ms hs)

  senders_below :
      (store : Store p) (ms : List (p.Uuid × StateMachine p)) (n : ℕ)
      → All (Holds p store []) ms
      → Listed n (senders p ms)
      → n < length store
  senders_below store [] n h l = absurd l
  senders_below store ((id, m) ∷ ms) n (h, hs) (inl here) =
      omega (arith, get_elem?-lt store m.command_sender h, here)
  senders_below store ((id, m) ∷ ms) n (h, hs) (inr there) = senders_below store ms n hs there

module _ (p : Platform) (T : PrefixTable p (BgpRibEntry p)) {A : Type 0} (s : Spawning p T A) where
  -- The bus can be locked, and every machine gets a channel of its own that is not on the bus.
  pub record IsFreshSpawning : Type 0 where
    pub locks : (j : ℕ) → s.locked j ≡ true
    pub apart : (i j : ℕ) → i < j → s.channel_id i ≢ s.channel_id j

  abbrev pub NoneTaken : MessageBus p → ℕ → Type 0
  NoneTaken bus k = (j : ℕ) → k ≤ j → IsFree p bus (s.channel_id j)

  made_one :
      (k : ℕ) (router : Router p T) (tm : ThreadManager p A) (store : Store p)
      → IsFreshSpawning
      → IsFree p tm.message_bus (s.channel_id k)
      → (tm' : ThreadManager p A) × (Machine.new p
            (s.locked k)
            (s.channel_id k)
            (s.thread_id k)
            (s.spawn router)
            tm
            store
          ≡ (Machine.done (machine p store (s.thread_id k)), tm', sync_channel p store 1))
        × (tm'.message_bus ≡ with_taken p tm.message_bus (length store) (s.channel_id k))
  made_one k router tm store fresh (se, re) = (
    with_machine p (s.channel_id k) (s.thread_id k) (s.spawn router) tm store,
    rw (fresh.locks k)
        (new_done p (s.channel_id k) (s.thread_id k) (s.spawn router) tm store se re),
    ap (λ x. x.1) (subscribe_new p tm.message_bus store 1 (s.channel_id k)),
  )

  -- The identifiers for which the map has a value.
  abbrev pub Has : {V : Type 0} → List (p.Uuid × V) → p.Uuid → Type 0
  Has {V} m id = (v : V) × (HashMap.get p.uuid_discrete id m ≡ some v)

  Has-insert :
      {V : Type 0} (id j : p.Uuid) (v : V) (m : List (p.Uuid × V))
      → (id ≡ j) ⊎ Has m j
      → Has (HashMap.insert p.uuid_discrete id v m) j
  Has-insert id j v m h = elim (p.uuid_discrete id j) [
    | yes e ↦
        subst (Has (HashMap.insert p.uuid_discrete id v m)) e
          (v, HashMap.get-insert_self p.uuid_discrete id v m)
    | no ne ↦ elim h [
      | inl e ↦ absurd (ne e)
      | inr (w, at) ↦ (w, HashMap.get-insert_ne p.uuid_discrete id j v m ne ∙ at)
    ]
  ]

  make_machines_total :
      (fresh : IsFreshSpawning) (k : ℕ) (routers : Routers p T)
      (machines : List (p.Uuid × StateMachine p)) (tm : ThreadManager p A) (store : Store p)
      → NoneTaken tm.message_bus k
      → All (Holds p store []) machines
      → IsDistinct (senders p machines)
      → (machines' : List (p.Uuid × StateMachine p)) × (tm' : ThreadManager p A) × (store' : Store
          p)
        × (make_machines p T s k routers machines tm store ≡ (done tt, machines', tm', store'))
        × All (Holds p store' []) machines'
        × IsDistinct (senders p machines')
        × ((id : p.Uuid) → Has routers id ⊎ Has machines id → Has machines' id)
  unfolding make_machines
  make_machines_total fresh k [] machines tm store v h d = (
    machines,
    tm,
    store,
    refl,
    h,
    d,
    λ id. elim [ inl (r, e) ↦ absurd (none-ne-some r e) | inr has ↦ has ],
  )
  make_machines_total fresh k ((id, router) ∷ routers) machines tm store v h d =
      let (tm1, made, bus) = made_one k router tm store fresh (v k (omega arith)) in
      let m = machine p store (s.thread_id k) in
      let idle : Channel p = record { bound = 1; queue = []; receiver_alive = true } in
      let machines1 = HashMap.insert p.uuid_discrete id m machines in
      let vacant : NoneTaken tm1.message_bus (suc k) = λ j lo.
        subst (λ b. IsFree p b (s.channel_id j)) (sym bus)
          (IsFree-with_taken p tm.message_bus (length store) (s.channel_id k) (s.channel_id j)
            (fresh.apart k j (omega (arith, lo))) (v j (omega (arith, lo)))) in
      let held =
        All-insert p (Holds p (sync_channel p store 1) []) id m machines
          (Holds-grown p store idle machines h) (get_elem?-append_last store idle) in
      let apart =
        insert-IsDistinct p id m machines
          (λ n l e. omega (arith, senders_below p store machines n h l, e)) d in
      let (machines', tm', store', rest, all, distinct, has) =
        make_machines_total fresh (suc k) routers machines1 tm1 (sync_channel p store 1) vacant held
          apart in
      (
        machines',
        tm',
        store',
        ground (arith, made, rest),
        all,
        distinct,
        λ j. elim [
          | inl (r, e) ↦ elim (p.uuid_discrete id j) [
            | yes same ↦ has j (inr (Has-insert id j m machines (inl same)))
            | no ne ↦ has j (inl (r, sym (if_neg (p.uuid_discrete id j) ne _ _) ∙ e))
          ]
          | inr old ↦ has j (inr (Has-insert id j m machines (inr old)))
        ],
      )

  -- While the first machine has not taken its command, `stop` waits.
  stop_waits :
      (ms : List (p.Uuid × StateMachine p)) (store : Store p) (id : p.Uuid)
      → All (Holds p store (running ∷ [])) ms
      → Has ms id
      → command_each p (Machine.stop p) ms store ≡ none
  unfolding command_each Machine.stop send_command blocking_send
  stop_waits [] store id h (m, e) = absurd (none-ne-some m e)
  stop_waits ((j, w) ∷ ms) store id (h, hs) has = ground (arith, h)

  -- A network without machines starts without a wait or an error, if the bus can be locked and the
  -- channels are new: no router is left in the manager, each has become a machine, and the channel of
  -- every machine holds the command to run. If there was a router, a `stop` right after it waits until
  -- the first machine has taken that command.
  pub start_total :
      (n : NetworkManager p T) (tm : ThreadManager p A) (store : Store p)
      → IsFreshSpawning
      → NoneTaken tm.message_bus 0
      → n.router_sm ≡ []
      → (n' : NetworkManager p T) × (tm' : ThreadManager p A) × (store' : Store p) × (start p T s n
            tm store
          ≡ some (done tt, n', tm', store'))
        × (n'.routers ≡ [])
        × All (Holds p store' (running ∷ [])) n'.router_sm
        × ((id : p.Uuid) → Has n.routers id → Has n'.router_sm id × (stop p T n' store' ≡ none))
  unfolding start stop Machine.start
  start_total n tm store fresh vacant none_yet =
      let (machines, tm', store1, made, idle, distinct, has) =
        make_machines_total fresh 0 n.routers [] tm store vacant tt tt in
      let (store', commanded, running_all, others) =
        command_each_total p running machines store1 distinct idle in
      (
        record n { routers = []; router_sm = machines },
        tm',
        store',
        ground (arith, made, commanded, none_yet),
        refl,
        running_all,
        λ id h.
            let there = has id (inl h) in (there, stop_waits machines store' id running_all there),
      )
