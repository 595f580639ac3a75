-- ===== src/Tests/Runs.antt =====
-- The theorems on runs of a RIB, on its copies and on the bus, applied on the sample platform.
use netfabric_bgp_router.Prelude.{
  ℕ, Outcome, panic, ◌≡◌, ◌↔◌, refl, subst, inl, true, Option, some, List, [], ◌∷◌, arith, ok,
  Listed, get_elem?, zero, suc, filter_map, flat_map, String-discrete,
}
use mathlib.Core.Option.{some-injective}
use netfabric_bgp_router.Platform.{IpAddr, v4}
use netfabric_bgp_router.Channel.{Store, Message, advertisement, internal_state, running}
use netfabric_bgp_router.MessageBus.{
  MessageBus, failed, channel_not_found, subscribe, publish, stop_all, receive_with_retry,
}
use netfabric_bgp_router.MessageBus.Retry.{Answers, receive_with_retry_total}
use netfabric_bgp_router.MessageBus.Shutdown.{IsPaired, stop_all_lem}
use netfabric_bgp_router.RibEntry.{BgpRibEntry}
use netfabric_bgp_router.Rib.{BgpRib, new, import_from_file, export_routes, get_routes_for_router}
use netfabric_bgp_router.Rib.Valid.{IsValid, Sees, new-IsValidRib}
use netfabric_bgp_router.Rib.History.{Call, announce, withdraw, nothing, replay, run}
use netfabric_bgp_router.Rib.Refinement.{Refines, run-new_refines, new-Refines}
use netfabric_bgp_router.Rib.Capacity.{run-new_total}
use netfabric_bgp_router.Rib.Files.{import_export}
use netfabric_bgp_router.RibInterface.{BgpRibInterface, Ribs, update, update_one, report_each}
use netfabric_bgp_router.RibInterface.Replay.{heard, update-Refines}
use netfabric_bgp_router.Interface
use netfabric_bgp_router.Interface.{Interface, receive_loop, get_incoming_advertisements}
use netfabric_bgp_router.Filters.{no_filter}
use netfabric_bgp_router.Session
use netfabric_bgp_router.Session.{default_session}
use netfabric_bgp_router.Process
use netfabric_bgp_router.Process.{BgpProcess, receive_each}
use netfabric_bgp_router.Router
use netfabric_bgp_router.Router.{Router, Turn, run_process, run_each}
use netfabric_bgp_router.Router.Valid.{work-AllValid}
use netfabric_bgp_router.Tests.Sample.{Net, sample, sample-IsLawful, read_net, read-print}
use netfabric_bgp_router.Advertisement.{get_announcements, get_withdrawals, route_for}
use netfabric_bgp_router.Tests.Ribs.{
  table, empty_rib, announcing, near, near_rib, bare_rib, near_inserted, near_removed,
  withdrawn_route,
}

abbrev calls : List (Call sample)
calls = announce 5 near ∷ withdraw 5 withdrawn_route ∷ []

calls-run : run sample table (new sample table) calls ≡ ok bare_rib
unfolding run
calls-run = rw (near_inserted, near_removed) refl

run-new_refines_example :
    Sees sample table bare_rib 5 near ↔ Listed near (replay sample calls (nothing sample) 5)
run-new_refines_example =
    run-new_refines sample table (sample-IsLawful (BgpRibEntry sample)) calls bare_rib calls-run 5
      near

run-new_total_example :
    (rib : BgpRib sample table) × (run sample table (new sample table) calls ≡ ok rib)
run-new_total_example =
    run-new_total sample table (sample-IsLawful (BgpRibEntry sample)) (5 ∷ []) (omega arith) calls
      (inl refl, (inl refl, tt))

abbrev reread : BgpRib sample table
reread = import_from_file sample table (export_routes sample table near_rib) read_net

import_export_example :
    ((n : Net) → table.exact_match reread.treebitmap n ≡ table.exact_match near_rib.treebitmap n)
    × ((address : IpAddr) (id : ℕ) → get_routes_for_router sample table reread address id ≡ [])
import_export_example =
    import_export sample table (sample-IsLawful (BgpRibEntry sample)) read_net read-print near_rib

-- A channel that is empty at first and then holds a command.
abbrev stores : ℕ → Store sample
stores zero = record { bound = 1; queue = []; receiver_alive = true } ∷ []
stores (suc n) =
    record { bound = 1; queue = internal_state running ∷ []; receiver_alive = true } ∷ []

receive_with_retry_total_example :
    (r : Option (Message sample × Store sample)) × (receive_with_retry sample stores 4 3 0 0
      ≡ some r)
    × Answers sample stores 3 0 0 r
receive_with_retry_total_example = receive_with_retry_total sample stores 3 0

abbrev bus : MessageBus sample
bus = record { senders = (9, 0) ∷ []; receivers = (9, 0) ∷ [] }

bus-IsPaired : IsPaired sample bus
bus-IsPaired id rx e = (rx, e)

stop_all_lem_example :
    let stopped = (stop_all sample bus (stores 0)).0 in
    (publish sample stopped 9 ≡ failed (channel_not_found 9))
    × ((subscribe sample stopped 9).0 ≡ failed (channel_not_found 9))
stop_all_lem_example = stop_all_lem sample bus (stores 0) bus-IsPaired 9

-- Router 5 hears an announcement that also withdraws.
abbrev speaker : BgpRibInterface sample table
speaker = record { client_id = 5; rib = 0; announced = []; withdrawn = [] }

abbrev told : BgpRibInterface sample table
told = record speaker { announced = near ∷ [] }

told-update :
    update sample table speaker (empty_rib ∷ []) (λ k. true) 0 (announcing ∷ [])
    ≡ ok (told, bare_rib ∷ [])
unfolding update update_one report_each get_announcements get_withdrawals route_for filter_map
    flat_map String-discrete
told-update = rw (near_inserted, near_removed) refl

update-Refines_example :
    (rib' : BgpRib sample table) × (get_elem? {A = BgpRib sample table} (bare_rib ∷ []) 0
      ≡ some rib')
    × Refines sample table
        (sample-IsLawful (BgpRibEntry sample))
        rib'
        (replay sample (heard sample 5 (λ k. true) 0 (announcing ∷ [])) (nothing sample))
update-Refines_example =
    update-Refines sample table (sample-IsLawful (BgpRibEntry sample)) speaker told (empty_rib ∷ [])
      (bare_rib ∷ []) (λ k. true) (announcing ∷ []) empty_rib (nothing sample) refl
      (new-Refines sample table (sample-IsLawful (BgpRibEntry sample))) told-update

-- Router 5 with one process, whose session receives the announcement.
abbrev channels : Store sample
channels = record { bound = 2; queue = advertisement announcing ∷ []; receiver_alive = true } ∷ []

abbrev wire : Interface sample
wire = record (Interface.new sample 1 (v4 1)) {
  in_channel = some 0;
  incoming = record { items = []; capacity = 2 };
}

abbrev process : BgpProcess sample table
process = record (Process.new sample table 8 speaker) {
  sessions = record { id = 3; config = default_session; interface = some wire } ∷ [];
}

abbrev router : Router sample table
router = record (Router.new sample table 5) { bgp_processes = process ∷ [] }

abbrev turn : Turn sample table
turn = record { locked = λ k ref. true; rib_locked = λ k. true; time = 0 }

abbrev ribs : Ribs sample table
ribs = empty_rib ∷ []

abbrev Turned : Type 0
Turned = Router sample table × Store sample × Ribs sample table

abbrev turned : Outcome Turned
turned = Router.work sample table (λ n. "2") (λ k. turn) router channels ribs

abbrev result : Outcome Turned → Turned
result (ok x) = x
result (panic m) = (router, channels, ribs)

turned-ok : turned ≡ ok (result turned)
unfolding Router.work run_each run_process Process.receive receive_each Session.receive
    Interface.receive receive_loop no_filter get_incoming_advertisements Interface.new
turned-ok = rw told-update refl

ribs-IsValid :
    (k : ℕ) (rib : BgpRib sample table) → get_elem? ribs k ≡ some rib → IsValid sample table rib
ribs-IsValid zero rib e =
    subst (IsValid sample table) (some-injective _ _ e)
      (new-IsValidRib sample table (sample-IsLawful (BgpRibEntry sample)))
ribs-IsValid (suc k) rib e = cc

work-AllValid_example :
    ((k : ℕ) (rib : BgpRib sample table)
      → get_elem? (result turned).2 k ≡ some rib
      → IsValid sample table rib)
    × ((result turned).0.id ≡ router.id)
work-AllValid_example =
    work-AllValid sample table (sample-IsLawful (BgpRibEntry sample)) (λ n. "2") (λ k. turn) router
      (result turned).0 channels (result turned).1 ribs (result turned).2 ribs-IsValid turned-ok
