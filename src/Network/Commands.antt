-- ===== src/Network/Commands.antt =====
-- What the commands of `start` and `stop` (modules/network.rs) do to the channels of the machines.
use netfabric_bgp_router.Prelude.{
  ℕ, ◌≡◌, ◌≢◌, refl, sym, ◌∙◌, true, some, List, [], ◌∷◌, map, Listed, All, get_elem?, set,
  get_elem?-lt, get_elem?-set_self, get_elem?-set_ne, arith, inl, inr,
}
use netfabric_bgp_router.Prelude.Distinct.{IsDistinct}
use netfabric_bgp_router.Platform.{Platform}
use netfabric_bgp_router.Channel.{Store, Channel, InternalState, internal_state, blocking_send}
use netfabric_bgp_router.StateMachine.Machine as Machine
use netfabric_bgp_router.StateMachine.Machine.{StateMachine, send_command}
use netfabric_bgp_router.Network.{done}
use netfabric_bgp_router.Network.Machines.{command_each}

module _ (p : Platform) where
  -- The channel of a machine holds these commands.
  abbrev pub Holds : Store p → List InternalState → p.Uuid × StateMachine p → Type 0
  Holds store cs e =
      get_elem? store e.1.command_sender
      ≡ some (record { bound = 1; queue = map internal_state cs; receiver_alive = true })

  abbrev pub senders : List (p.Uuid × StateMachine p) → List ℕ
  senders machines = map (λ e. e.1.command_sender) machines

  sent_one :
      (m : StateMachine p) (store : Store p) (id : p.Uuid) (c : InternalState)
      → Holds store [] (id, m)
      → (store' : Store p) × (send_command p m store c ≡ some (Machine.done tt, store'))
        × Holds store' (c ∷ []) (id, m)
        × ((ref : ℕ) → m.command_sender ≢ ref → get_elem? store' ref ≡ get_elem? store ref)
  unfolding send_command blocking_send
  sent_one m store id c h =
      let full : Channel p = record {
        bound = 1;
        queue = internal_state c ∷ [];
        receiver_alive = true;
      } in
      (
        set store m.command_sender full,
        ground (arith, h),
        get_elem?-set_self store m.command_sender full (get_elem?-lt store m.command_sender h),
        λ ref ne. get_elem?-set_ne store m.command_sender ref full ne,
      )

  Holds-kept :
      (store store' : Store p) (cs : List InternalState) (n : ℕ)
      (machines : List (p.Uuid × StateMachine p))
      → ((ref : ℕ) → n ≢ ref → get_elem? store' ref ≡ get_elem? store ref)
      → ((ref : ℕ) → Listed ref (senders machines) → n ≢ ref)
      → All (Holds store cs) machines
      → All (Holds store' cs) machines
  Holds-kept store store' cs n [] same apart h = tt
  Holds-kept store store' cs n ((id, m) ∷ machines) same apart (h, hs) = (
    same m.command_sender (apart m.command_sender (inl refl)) ∙ h,
    Holds-kept store store' cs n machines same (λ ref l. apart ref (inr l)) hs,
  )

  -- A command for machines whose channels are idle and distinct reaches them all without a wait.
  pub command_each_total :
      (c : InternalState) (machines : List (p.Uuid × StateMachine p)) (store : Store p)
      → IsDistinct (senders machines)
      → All (Holds store []) machines
      → (store' : Store p) × (command_each p (λ m st. send_command p m st c) machines store
          ≡ some (done tt, store'))
        × All (Holds store' (c ∷ [])) machines
        × ((ref : ℕ)
            → ((n : ℕ) → Listed n (senders machines) → n ≢ ref)
            → get_elem? store' ref ≡ get_elem? store ref)
  unfolding command_each
  command_each_total c [] store d h = (store, refl, tt, λ ref apart. refl)
  command_each_total c ((id, m) ∷ machines) store (apart, d) (h, hs) =
      let (store1, first, holds, same) = sent_one m store id c h in
      let idle = Holds-kept store store1 [] m.command_sender machines same apart hs in
      let (store', rest, all, others) = command_each_total c machines store1 d idle in
      (
        store',
        ground (arith, first, rest),
        (others m.command_sender (λ n l e. apart n l (sym e)) ∙ holds, all),
        λ ref none.
            others ref (λ n l. none n (inr l)) ∙ same ref (none m.command_sender (inl refl)),
      )
