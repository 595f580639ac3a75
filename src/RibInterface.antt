-- ===== src/RibInterface.antt =====
-- components/bgp/bgp_rib.rs: `BgpRibInterface`, through which one client uses a RIB that it shares
-- with others. The RIBs live in a store, and an interface refers to its RIB by index.
pub mod Replay
use netfabric_bgp_router.Prelude.{
  ℕ, suc, Bool, Option, none, some, List, [], ◌∷◌, ◌++◌, get_elem?, set, Outcome, ok, panic, ◌>>=◌,
  if◌then◌else◌,
}
use netfabric_bgp_router.Platform.{Platform, IpAddr}
use netfabric_bgp_router.PrefixTable.{PrefixTable}
use netfabric_bgp_router.Route.{Route}
use netfabric_bgp_router.BestRoute.{BestRoute}
use netfabric_bgp_router.RibEntry.{BgpRibEntry}
use netfabric_bgp_router.Advertisement.{Advertisement, get_announcements, get_withdrawals}
use netfabric_bgp_router.Rib.{
  BgpRib, clear, register_router, get_bestroute_for_router, insert_route, remove_route,
}

module _ (p : Platform) (T : PrefixTable p (BgpRibEntry p)) where
  -- The RIBs behind the `Arc<Mutex<BgpRib>>`s.
  abbrev pub Ribs : Type 0
  Ribs = List (BgpRib p T)

  -- `BgpRibInterface`
  pub record BgpRibInterface : Type 0 where
    pub client_id : p.Uuid
    pub rib : ℕ
    pub announced : List (BestRoute p)
    pub withdrawn : List (BestRoute p)

  -- A reference to a RIB is always good; a bad index panics.
  abbrev pub rib_at : Ribs → ℕ → Outcome (BgpRib p T)
  rib_at ribs ref = elim (get_elem? ribs ref) [ none ↦ panic "no such RIB" | some rib ↦ ok rib ]

  -- `BgpRibInterface::new`, which registers the client.
  unfoldable pub new : Ribs → ℕ → p.Uuid → Outcome (BgpRibInterface × Ribs)
  new ribs ref id = do
    rib ← rib_at ribs ref
    rib' ← register_router p T rib id
    ok (record { client_id = id; rib = ref; announced = []; withdrawn = [] }, set ribs ref rib')

  -- `set_client_id` and `set_rib`, which do not register anything.
  abbrev pub set_client_id : BgpRibInterface → p.Uuid → BgpRibInterface
  set_client_id i id = record i { client_id = id }

  abbrev pub set_rib : BgpRibInterface → ℕ → BgpRibInterface
  set_rib i ref = record i { rib = ref }

  -- The reports of a call for each route in turn: `filter_map` over `insert_route` or
  -- `remove_route`.
  unfoldable pub report_each :
      (BgpRib p T → Route p → p.Uuid → Outcome (Option (BestRoute p) × BgpRib p T))
      → BgpRib p T
      → p.Uuid
      → List (Route p)
      → Outcome (List (BestRoute p) × BgpRib p T)
  report_each call rib id [] = ok ([], rib)
  report_each call rib id (route ∷ rest) = do
    (report, rib') ← call rib route id
    (others, rib'') ← report_each call rib' id rest
    ok (elim report [ none ↦ others | some best ↦ best ∷ others ], rib'')

  -- The body of the loop of `update`, once the lock is held.
  unfoldable pub update_one :
      BgpRibInterface → Ribs → Advertisement p → Outcome (BgpRibInterface × Ribs)
  update_one i ribs ad = do
    rib ← rib_at ribs i.rib
    (announced, rib') ← report_each (insert_route p T) rib i.client_id (get_announcements p ad)
    (withdrawn, rib'') ← report_each (remove_route p T) rib' i.client_id (get_withdrawals p ad)
    ok (
      record i { announced = i.announced ++ announced; withdrawn = i.withdrawn ++ withdrawn },
      set ribs i.rib rib'',
    )

  -- `BgpRibInterface::update`; `locked k` says whether the lock is taken in time in round `k`. An
  -- advertisement for which it is not is passed over.
  unfoldable pub update :
      BgpRibInterface
      → Ribs
      → (ℕ → Bool)
      → ℕ
      → List (Advertisement p)
      → Outcome (BgpRibInterface × Ribs)
  update i ribs locked k [] = ok (i, ribs)
  update i ribs locked k (ad ∷ rest) = do
    (i', ribs') ← (if locked k then update_one i ribs ad else ok (i, ribs))
    update i' ribs' locked (suc k) rest

  -- `BgpRibInterface::get_bestroute_updates`
  unfoldable pub get_bestroute_updates :
      BgpRibInterface → (List (BestRoute p) × List (BestRoute p)) × BgpRibInterface
  get_bestroute_updates i =
      ((i.announced, i.withdrawn), record i { announced = []; withdrawn = [] })

  -- `BgpRibInterface::get_bestroute`
  unfoldable pub get_bestroute : BgpRibInterface → Ribs → IpAddr → Outcome (Option (BestRoute p))
  get_bestroute i ribs address = do
    rib ← rib_at ribs i.rib
    ok (get_bestroute_for_router p T rib address i.client_id)

  -- `BgpRibInterface::clear_rib`
  unfoldable pub clear_rib : BgpRibInterface → Ribs → Outcome Ribs
  clear_rib i ribs = do rib ← rib_at ribs i.rib; ok (set ribs i.rib (clear p T rib))
