-- ===== src/LiveBgpParser/Connect.antt =====
-- The helpers of modules/live_bgp_parser.rs that connect a parser to a session or a router.
use netfabric_bgp_router.Prelude.{Outcome, ok, panic, ◌>>=◌}
use netfabric_bgp_router.Platform.{Platform}
use netfabric_bgp_router.PrefixTable.{PrefixTable}
use netfabric_bgp_router.RibEntry.{BgpRibEntry}
use netfabric_bgp_router.Channel.{Store}
use netfabric_bgp_router.MessageBus.{MessageBus}
use netfabric_bgp_router.Session.{BgpSession, default_session}
use netfabric_bgp_router.RibInterface.{Ribs}
use netfabric_bgp_router.Process
use netfabric_bgp_router.Router
use netfabric_bgp_router.Router.{Router, add_bgp_process}
use netfabric_bgp_router.Network.{Fresh, done, failed, new_bgp_session_pair}
use netfabric_bgp_router.LiveBgpParser.{Source, LiveBgpParser, new, add_bgp_session}

module _ (p : Platform) (src : Source p) where
  -- `get_parser_with_bgp_session`, at the given time and with the identifiers that it draws. An error
  -- of the session pair is unwrapped.
  unfoldable pub get_parser_with_bgp_session :
      src.Instant
      → Fresh p
      → p.Uuid
      → p.Uuid
      → MessageBus p
      → Store p
      → Outcome ((LiveBgpParser p src × BgpSession p) × MessageBus p × Store p)
  get_parser_with_bgp_session now fresh id1 id2 bus store =
      let (pair, bus', store') =
        new_bgp_session_pair p fresh id1 id2 bus store default_session default_session 1000 in
      elim pair [
        | failed _ ↦ panic "called `Result::unwrap()` on an `Err` value"
        | done (session1, session2) ↦
            ok ((add_bgp_session p src (new p src now) session1, session2), bus', store')
      ]

  module _ (T : PrefixTable p (BgpRibEntry p)) where
    -- `get_parser_with_router`, with the new identifiers of the process, its RIB's client and the
    -- router.
    unfoldable pub get_parser_with_router :
        src.Instant
        → Fresh p
        → p.Uuid
        → p.Uuid
        → p.Uuid
        → p.Uuid
        → p.Uuid
        → Ribs p T
        → MessageBus p
        → Store p
        → Outcome ((LiveBgpParser p src × Router p T) × Ribs p T × MessageBus p × Store p)
    get_parser_with_router now fresh id1 id2 process_id client_id router_id ribs bus store = do
      ((parser, session), bus', store') ← get_parser_with_bgp_session now fresh id1 id2 bus store
      (process, ribs') ← Process.create p T process_id client_id ribs
      ok (
        (
          parser,
          add_bgp_process p T (Router.new p T router_id) (Process.add_session p T process session),
        ),
        ribs',
        bus',
        store',
      )
