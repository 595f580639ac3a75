-- ===== src/Router.antt =====
-- modules/router.rs: a router runs its BGP processes in turn, as the work of a state machine.
pub mod Valid
use netfabric_bgp_router.Prelude.{ℕ, suc, String, Bool, List, [], ◌∷◌, ◌++◌, Outcome, ok, ◌>>=◌}
use netfabric_bgp_router.Platform.{Platform}
use netfabric_bgp_router.PrefixTable.{PrefixTable}
use netfabric_bgp_router.RibEntry.{BgpRibEntry}
use netfabric_bgp_router.Channel.{Store}
use netfabric_bgp_router.RibInterface.{Ribs}
use netfabric_bgp_router.Process
use netfabric_bgp_router.Process.{BgpProcess}

-- `RouterOptions`, which has no fields yet.
pub data RouterOptions : Type 0 where
  no_options : RouterOptions

-- `RouterError`
pub data RouterError : Type 0 where
  message_bus_error lock_error process_error rib_not_set interface_error : String → RouterError

module _ (p : Platform) (T : PrefixTable p (BgpRibEntry p)) where
  -- `Router`
  pub record Router : Type 0 where
    pub id : p.Uuid
    pub options : RouterOptions
    pub bgp_processes : List (BgpProcess p T)

  -- `Router::new`, `set_options` and `new_with_options`
  abbrev pub new : p.Uuid → Router
  new id = record { id = id; options = no_options; bgp_processes = [] }

  abbrev pub set_options : Router → RouterOptions → Router
  set_options r options = record r { options = options }

  abbrev pub new_with_options : p.Uuid → RouterOptions → Router
  new_with_options id options = set_options (new id) options

  -- `Router::add_bgp_process`
  unfoldable pub add_bgp_process : Router → BgpProcess p T → Router
  add_bgp_process r process = record r {
    bgp_processes = r.bgp_processes ++ (Process.set_router_id p T process r.id ∷ []);
  }

  -- What the environment decides for one process: the locks of its channels and of its RIB, the time.
  pub record Turn : Type 0 where
    pub locked : ℕ → ℕ → Bool
    pub rib_locked : ℕ → Bool
    pub time : p.F64

  -- The body of the loop of `work`.
  unfoldable pub run_process :
      (ℕ → String)
      → Turn
      → BgpProcess p T
      → Store p
      → Ribs p T
      → Outcome (BgpProcess p T × Store p × Ribs p T)
  run_process show_number turn b store ribs = do
    (b', store', ribs') ← Process.receive p T b store ribs turn.locked turn.rib_locked
    let changed = Process.get_best_route_changes p T b'
    let ready = Process.generate_advertisement p T turn.time show_number changed
    ok ((Process.send p T ready store').0, (Process.send p T ready store').1, ribs')

  unfoldable pub run_each :
      (ℕ → String)
      → (ℕ → Turn)
      → ℕ
      → List (BgpProcess p T)
      → Store p
      → Ribs p T
      → Outcome (List (BgpProcess p T) × Store p × Ribs p T)
  run_each show_number turns k [] store ribs = ok ([], store, ribs)
  run_each show_number turns k (b ∷ rest) store ribs = do
    (b', store', ribs') ← run_process show_number (turns k) b store ribs
    (others, store'', ribs'') ← run_each show_number turns (suc k) rest store' ribs'
    ok (b' ∷ others, store'', ribs'')

  -- `Router::work`, which always answers `Continue`.
  unfoldable pub work :
      (ℕ → String)
      → (ℕ → Turn)
      → Router
      → Store p
      → Ribs p T
      → Outcome (Router × Store p × Ribs p T)
  work show_number turns r store ribs = do
    (processes, store', ribs') ← run_each show_number turns 0 r.bgp_processes store ribs
    ok (record r { bgp_processes = processes }, store', ribs')
