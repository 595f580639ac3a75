-- ===== src/Tests/Links.antt =====
-- The theorems on advertisements, filters and interfaces, applied on the sample platform.
use netfabric_bgp_router.Prelude.{
  ◌≡◌, ◌↔◌, refl, true, false, Option, none, some, List, [], ◌∷◌, ◌++◌, length, take, arith,
  get_elem?, Listed, String, ltb, if◌then◌else◌,
}
use netfabric_bgp_router.Platform.{v4, v6}
use netfabric_bgp_router.Route.{AsPath}
use netfabric_bgp_router.Advertisement.{Advertisement, Announcement, get_announcements}
use netfabric_bgp_router.Advertisement.Routes.{IsRouteFor, list_or_empty, get_announcements_iff}
use netfabric_bgp_router.Filters.{own_as_filter, ip_network_blacklist_filter}
use netfabric_bgp_router.Filters.Laws.{
  PathMentions, Overlaps, IsCidr, own_as_filter_iff, ip_network_blacklist_filter_iff,
}
use netfabric_bgp_router.Channel.{Channel, Store, Message, advertisement, set_queue}
use netfabric_bgp_router.Interface.{
  Interface, InterfaceError, Buffer, outgoing_buffer_capacity_exceeded, receive, send, accepted,
  push_outgoing_advertisements,
}
use netfabric_bgp_router.Interface.Bounds.{IsBounded, receive-IsBounded}
use netfabric_bgp_router.Interface.Receive.{room, receive-stored}
use netfabric_bgp_router.Interface.Conserve.{Accounts, receive-Accounts}
use netfabric_bgp_router.Interface.Send.{filled, send-channel}
use netfabric_bgp_router.Interface.Push.{push_all-items}
use netfabric_bgp_router.Session
use netfabric_bgp_router.Session.{BgpSession, default_session, success}
use netfabric_bgp_router.Session.Loopback.{receive-send}
use netfabric_bgp_router.Tests.Sample.{host, everything, sample}
use netfabric_bgp_router.Tests.Ribs.{withdrawal, announcing, near}

get_announcements_iff_example : Listed near (get_announcements sample announcing) ↔ (
    (a : Announcement) × (text : String) × Listed a (list_or_empty announcing.announcements)
    × Listed text a.prefixes
    × IsRouteFor sample announcing a.next_hop text near)
get_announcements_iff_example = get_announcements_iff sample announcing near

own_as_filter_iff_example :
    ((own_as_filter sample 2 announcing).1 ≡ announcing)
    × (((own_as_filter sample 2 announcing).0 ≡ false)
        ↔ ((path : AsPath) × (announcing.path ≡ some path) × PathMentions 2 path))
own_as_filter_iff_example = own_as_filter_iff sample 2 announcing

sample_cidr : IsCidr sample
sample_cidr = record {
  own_address = elim [ everything ↦ refl | host n ↦ ground arith ];
  nested = elim [
    | everything ↦ λ m a short l r. refl
    | host n ↦ elim [
      | everything ↦ λ a short l r. absurd (omega arith)
      | host m ↦ elim [
        | v4 a ↦ λ short l r. ground arith
        | v6 a ↦ λ short l r. absurd (ground arith)
      ]
    ]
  ];
}

ip_network_blacklist_filter_iff_example :
    ((ip_network_blacklist_filter sample (host 7) near).1 ≡ near)
    × (((ip_network_blacklist_filter sample (host 7) near).0 ≡ true)
        ↔ Overlaps sample (host 7) near.prefix)
ip_network_blacklist_filter_iff_example =
    ip_network_blacklist_filter_iff sample sample_cidr (host 7) near

-- A link whose channel has room for two messages, one of which is there.
abbrev link_channel : Channel sample
link_channel = record { bound = 2; queue = advertisement announcing ∷ []; receiver_alive = true }

abbrev link : Interface sample
link = record {
  id = 1;
  ip_address = v4 1;
  in_channel = some 0;
  out_channel = some 0;
  in_filter = own_as_filter sample 3;
  out_filter = own_as_filter sample 3;
  incoming = record { items = []; capacity = 2 };
  outgoing = record { items = withdrawal ∷ announcing ∷ []; capacity = 2 };
  buffer_size_incoming = 2;
  buffer_size_outgoing = 2;
}

abbrev full_link : Interface sample
full_link = record link { incoming = record { items = withdrawal ∷ []; capacity = 1 } }

link-IsBounded : IsBounded sample link
link-IsBounded = record { incoming_fits = omega arith; outgoing_fits = omega arith }

receive-IsBounded_example :
    IsBounded sample (receive sample link (link_channel ∷ []) (λ ref. true)).1
receive-IsBounded_example =
    receive-IsBounded sample link (link_channel ∷ []) (λ ref. true) link-IsBounded

receive-stored_example :
    (receive sample link (link_channel ∷ []) (λ ref. true)).1.incoming.items
    ≡ link.incoming.items
      ++ take (room sample link.incoming) (accepted sample link.in_filter (announcing ∷ []))
receive-stored_example =
    receive-stored sample link (link_channel ∷ []) (λ ref. true) 0 (announcing ∷ []) refl refl refl

-- Two advertisements wait for a full buffer, and the filter lets both through.
abbrev crowded : Store sample
crowded =
    record link_channel { queue = advertisement announcing ∷ advertisement withdrawal ∷ [] } ∷ []

receive-Accounts_example :
    (error : Option InterfaceError) × (after : Buffer (Advertisement sample)) × (left : List
      (Message sample))
    × (receive sample full_link crowded (λ ref. true)
        ≡ (error, record full_link { incoming = after }, set_queue sample crowded 0 left))
    × Accounts sample full_link.in_filter
        (announcing ∷ withdrawal ∷ [])
        full_link.incoming
        (error, after, left)
receive-Accounts_example =
    receive-Accounts sample full_link crowded (λ ref. true) 0 (announcing ∷ withdrawal ∷ []) refl
      refl refl

send-channel_example :
    (get_elem? (send sample link (link_channel ∷ [])).1 0
      ≡ some (filled sample link_channel (accepted sample link.out_filter link.outgoing.items)))
    × ((send sample link (link_channel ∷ [])).0.outgoing.items ≡ [])
send-channel_example = send-channel sample link (link_channel ∷ []) 0 link_channel refl (refl, refl)

push_all-items_example :
    ((push_outgoing_advertisements sample link (announcing ∷ [])).1.outgoing.items
      ≡ link.outgoing.items ++ take (room sample link.outgoing) (announcing ∷ []))
    × ((push_outgoing_advertisements sample link (announcing ∷ [])).0 ≡ (
        if ltb (room sample link.outgoing) (length (announcing ∷ []))
        then some outgoing_buffer_capacity_exceeded
        else none))
push_all-items_example = push_all-items sample link (announcing ∷ []) 0 refl

-- A session over an interface that is joined to itself by an idle channel.
abbrev idle_channel : Channel sample
idle_channel = record { bound = 2; queue = []; receiver_alive = true }

abbrev idle_link : Interface sample
idle_link = record link { outgoing = record { items = []; capacity = 2 } }

abbrev session : BgpSession sample
session = record { id = 3; config = default_session; interface = some idle_link }

receive-send_example :
    (Session.receive sample
      (Session.send sample session (idle_channel ∷ []) (announcing ∷ [])).1
      (Session.send sample session (idle_channel ∷ []) (announcing ∷ [])).2
      (λ ref. true)).0
    ≡ success (
        take 2 (
          accepted sample idle_link.in_filter
            (take 2 (accepted sample idle_link.out_filter (take 2 (announcing ∷ []))))))
receive-send_example =
    receive-send sample idle_link (announcing ∷ []) (idle_channel ∷ []) 0 refl idle_channel
      (λ ref. true) refl refl (refl, refl) refl refl refl session refl
