-- ===== src/Process.antt =====
-- components/bgp/bgp_process.rs: a BGP process reads the advertisements of its sessions into its
-- RIB, and sends the changes of the best routes to all of them.
use netfabric_bgp_router.Prelude.{
  ℕ, suc, String, Bool, true, false, none, some, List, [], ◌∷◌, ◌++◌, length, map, retain, ite,
  Outcome, ok, ◌>>=◌,
}
use netfabric_bgp_router.Platform.{Platform}
use netfabric_bgp_router.PrefixTable.{PrefixTable}
use netfabric_bgp_router.BestRoute.{BestRoute}
use netfabric_bgp_router.RibEntry.{BgpRibEntry}
use netfabric_bgp_router.Advertisement.{Advertisement, update}
use netfabric_bgp_router.Channel.{Store}
use netfabric_bgp_router.Session
use netfabric_bgp_router.Session.{
  BgpSession, ProcessConfig, SessionConfig, default_process, success, failure,
}
use netfabric_bgp_router.Rib
use netfabric_bgp_router.RibInterface
use netfabric_bgp_router.RibInterface.{BgpRibInterface, Ribs}

module _ (p : Platform) (T : PrefixTable p (BgpRibEntry p)) where
  -- `BgpProcess`
  pub record BgpProcess : Type 0 where
    pub id : p.Uuid
    pub sessions : List (BgpSession p)
    pub config : ProcessConfig
    pub rib_interface : BgpRibInterface p T
    pub announced : List (BestRoute p)
    pub withdrawn : List (BestRoute p)
    pub advertisement : List (Advertisement p)

  -- `BgpProcess::new`, over the interface to the RIB that the call creates for it.
  abbrev pub new : p.Uuid → BgpRibInterface p T → BgpProcess
  new id rib_interface = record {
    id = id;
    sessions = [];
    config = default_process;
    rib_interface = rib_interface;
    announced = [];
    withdrawn = [];
    advertisement = [];
  }

  -- The whole of `BgpProcess::new`: the RIB that it creates and registers in, with the new identifier
  -- of the process and that of its RIB's client.
  unfoldable pub create : p.Uuid → p.Uuid → Ribs p T → Outcome (BgpProcess × Ribs p T)
  create id client_id ribs = do
    (rib_interface, ribs') ←
        (RibInterface.new p T (ribs ++ (Rib.new p T ∷ [])) (length ribs) client_id)
    ok (new id rib_interface, ribs')

  -- `BgpProcess::from_config`
  unfoldable pub from_config :
      p.Uuid → p.Uuid → Ribs p T → ProcessConfig → Outcome (BgpProcess × Ribs p T)
  from_config id client_id ribs config = do
    (process, ribs') ← create id client_id ribs
    ok (record process { config = config }, ribs')

  -- The setters; each `with_...` is the setter of that name.
  abbrev pub set_router_id : BgpProcess → p.Uuid → BgpProcess
  set_router_id b id = record b {
    rib_interface = RibInterface.set_client_id p T b.rib_interface id;
  }

  abbrev pub set_rib : BgpProcess → ℕ → BgpProcess
  set_rib b ref = record b { rib_interface = RibInterface.set_rib p T b.rib_interface ref }

  abbrev pub set_rib_interface : BgpProcess → BgpRibInterface p T → BgpProcess
  set_rib_interface b i = record b { rib_interface = i }

  abbrev pub set_config : BgpProcess → ProcessConfig → BgpProcess
  set_config b config = record b { config = config }

  abbrev pub add_session : BgpProcess → BgpSession p → BgpProcess
  add_session b s = record b { sessions = b.sessions ++ (s ∷ []) }

  -- `BgpProcess::create_session`, with the new identifier as an argument.
  abbrev pub create_session : BgpProcess → p.Uuid → SessionConfig → BgpProcess
  create_session b id config = add_session b (Session.from_config p id config)

  -- `BgpProcess::remove_session`
  unfoldable pub remove_session : BgpProcess → p.Uuid → BgpProcess
  remove_session b id = record b {
    sessions = retain (λ s. ite (p.uuid_discrete s.id id) false true) b.sessions;
  }

  -- The sessions of `BgpProcess::receive` in turn: what those without an error returned, and the
  -- sessions and channels after it. `locked k` are the locks that session `k` gets in time.
  unfoldable pub receive_each :
      List (BgpSession p)
      → Store p
      → (ℕ → ℕ → Bool)
      → ℕ
      → List (Advertisement p) × List (BgpSession p) × Store p
  receive_each [] store locked k = ([], [], store)
  receive_each (s ∷ rest) store locked k =
      let (result, s', store') = Session.receive p s store (locked k) in
      let (ads, sessions, store'') = receive_each rest store' locked (suc k) in
      (elim result [ success found ↦ found ++ ads | failure _ ↦ ads ], s' ∷ sessions, store'')

  -- `BgpProcess::receive`; `rib_locked` says for which advertisements the RIB's lock is taken.
  unfoldable pub receive :
      BgpProcess
      → Store p
      → Ribs p T
      → (ℕ → ℕ → Bool)
      → (ℕ → Bool)
      → Outcome (BgpProcess × Store p × Ribs p T)
  receive b store ribs locked rib_locked = do
    (i, ribs') ←
        (RibInterface.update p T b.rib_interface ribs rib_locked 0
          (receive_each b.sessions store locked 0).0)
    ok (
      record b { sessions = (receive_each b.sessions store locked 0).1; rib_interface = i },
      (receive_each b.sessions store locked 0).2,
      ribs',
    )

  -- `BgpProcess::get_best_route_changes`
  unfoldable pub get_best_route_changes : BgpProcess → BgpProcess
  get_best_route_changes b =
      let (updates, i) = RibInterface.get_bestroute_updates p T b.rib_interface in
      record b { announced = updates.0; withdrawn = updates.1; rib_interface = i }

  -- `BgpProcess::generate_advertisement`; the time and the decimal print are arguments. The updates
  -- stay as they are, and an advertisement is added even if there are none.
  unfoldable pub generate_advertisement : p.F64 → (ℕ → String) → BgpProcess → BgpProcess
  generate_advertisement time show_number b = record b {
    advertisement =
        b.advertisement
        ++ (record {
          timestamp = time;
          peer = p.ip_to_string b.config.ip;
          peer_asn = show_number b.config.as_number;
          id = p.uuid_to_string b.id;
          host = p.ip_to_string b.config.ip;
          msg_type = update;
          path = none;
          community = none;
          origin = none;
          announcements = some (
              map
                (λ r. record {
                  next_hop = r.next_hop;
                  prefixes = p.network_to_string r.prefix ∷ [];
                })
                b.announced);
          raw = some "";
          withdrawals = some (map (λ r. p.network_to_string r.prefix) b.withdrawn);
        }
            ∷ []);
  }

  -- The sessions of `BgpProcess::send` in turn; an error is only logged.
  unfoldable pub send_each :
      List (BgpSession p) → Store p → List (Advertisement p) → List (BgpSession p) × Store p
  send_each [] store ads = ([], store)
  send_each (s ∷ rest) store ads =
      let (_, s', store') = Session.send p s store ads in
      let (sessions, store'') = send_each rest store' ads in (s' ∷ sessions, store'')

  -- `BgpProcess::send`
  unfoldable pub send : BgpProcess → Store p → BgpProcess × Store p
  send b store =
      let (sessions, store') = send_each b.sessions store b.advertisement in
      (record b { sessions = sessions; advertisement = [] }, store')
