-- ===== src/Session.antt =====
-- components/bgp/bgp_config.rs and components/bgp/bgp_session.rs: a session of a BGP process over
-- one interface.
pub mod Delivery
pub mod Loopback
use netfabric_bgp_router.Prelude.{ℕ, Bool, false, Option, none, some, List}
use netfabric_bgp_router.Platform.{Platform, IpAddr, v4}
use netfabric_bgp_router.Advertisement.{Advertisement}
use netfabric_bgp_router.Channel.{Store}
use netfabric_bgp_router.Interface
use netfabric_bgp_router.Interface.{
  Interface, InterfaceError, get_incoming_advertisements, push_outgoing_advertisements,
}

-- `SessionConfig` and its default
pub record SessionConfig : Type 0 where
  pub session_ip : IpAddr
  pub interface_ip : IpAddr
  pub next_hop_self : Bool

abbrev pub default_session : SessionConfig
default_session = record { session_ip = v4 0; interface_ip = v4 0; next_hop_self = false }

-- `ProcessConfig` and its default
pub record ProcessConfig : Type 0 where
  pub ip : IpAddr
  pub as_number : ℕ

abbrev pub default_process : ProcessConfig
default_process = record { ip = v4 0; as_number = 0 }

-- `BgpSessionError`
pub data BgpSessionError : Type 0 where
  interface_not_set : BgpSessionError
  interface_error : InterfaceError → BgpSessionError

-- `Result<A, BgpSessionError>`
pub data SessionResult (A : Type 0) : Type 0 where
  success : A → SessionResult A
  failure : BgpSessionError → SessionResult A

module _ (p : Platform) where
  -- `BgpSession`
  pub record BgpSession : Type 0 where
    pub id : p.Uuid
    pub config : SessionConfig
    pub interface : Option (Interface p)

  -- `BgpSession::new`, with the new identifier as an argument.
  abbrev pub new : p.Uuid → BgpSession
  new id = record { id = id; config = default_session; interface = none }

  -- `BgpSession::from_config`, `set_config`, `set_interface`
  abbrev pub set_config : BgpSession → SessionConfig → BgpSession
  set_config s config = record s { config = config }

  abbrev pub from_config : p.Uuid → SessionConfig → BgpSession
  from_config id config = set_config (new id) config

  abbrev pub set_interface : BgpSession → Interface p → BgpSession
  set_interface s interface = record s { interface = some interface }

  -- `BgpSession::receive`
  unfoldable pub receive :
      BgpSession
      → Store p
      → (ℕ → Bool)
      → SessionResult (List (Advertisement p)) × BgpSession × Store p
  receive s store locked = elim s.interface [
    | none ↦ (failure interface_not_set, s, store)
    | some i ↦
        let (error, i', store') = Interface.receive p i store locked in
        elim error [
          | some e ↦ (failure (interface_error e), set_interface s i', store')
          | none ↦
              let (ads, emptied) = get_incoming_advertisements p i' in
              (success ads, set_interface s emptied, store')
        ]
  ]

  -- `BgpSession::send`: what fits is sent even if the result is an error.
  unfoldable pub send :
      BgpSession → Store p → List (Advertisement p) → SessionResult Unit × BgpSession × Store p
  send s store ads = elim s.interface [
    | none ↦ (failure interface_not_set, s, store)
    | some i ↦
        let (error, queued) = push_outgoing_advertisements p i ads in
        let (i', store') = Interface.send p queued store in
        (
          elim error [ none ↦ success tt | some e ↦ failure (interface_error e) ],
          set_interface s i',
          store',
        )
  ]
