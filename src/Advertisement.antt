-- ===== src/Advertisement.antt =====
-- components/advertisement.rs and components/ris_live_data.rs: the messages that routers exchange
-- and those of the RIS live stream.
pub mod Routes
use netfabric_bgp_router.Prelude.{
  ℕ, String, String-discrete, Option, none, some, List, [], ◌∷◌, ite, filter_map, flat_map,
}
use netfabric_bgp_router.Platform.{Platform}
use netfabric_bgp_router.Route.{AsPath, Route}

-- `Announcement`
pub record Announcement : Type 0 where
  pub next_hop : String
  pub prefixes : List String

-- `AdvertisementType`
pub data AdvertisementType : Type 0 where
  unknown update keepalive open_message notification ris_peer_state : AdvertisementType

-- `From<String> for AdvertisementType`
unfoldable pub parse_type : String → AdvertisementType
parse_type s = ite (String-discrete s "UPDATE") update (
    ite (String-discrete s "KEEPALIVE") keepalive (
      ite (String-discrete s "OPEN") open_message (
        ite (String-discrete s "NOTIFICATION") notification (
          ite (String-discrete s "RIS_PEER_STATE") ris_peer_state
            (ite (String-discrete s "STATE") ris_peer_state unknown)))))

-- `Notification`
pub record Notification : Type 0 where
  pub code : ℕ
  pub subcode : ℕ
  pub text : String

module _ (p : Platform) where
  -- `Advertisement`
  pub record Advertisement : Type 0 where
    pub timestamp : p.F64
    pub peer : String
    pub peer_asn : String
    pub id : String
    pub host : String
    pub msg_type : AdvertisementType
    pub path : Option AsPath
    pub community : Option (List (List ℕ))
    pub origin : Option String
    pub announcements : Option (List Announcement)
    pub raw : Option String
    pub withdrawals : Option (List String)

  -- `RisLiveData`
  pub record RisLiveData : Type 0 where
    pub timestamp : p.F64
    pub peer : String
    pub peer_asn : String
    pub id : String
    pub raw : Option String
    pub host : String
    pub msg_type : AdvertisementType
    pub path : Option AsPath
    pub community : Option (List (List ℕ))
    pub origin : Option String
    pub med : Option ℕ
    pub aggregator : Option String
    pub announcements : Option (List Announcement)
    pub withdrawals : Option (List String)
    pub direction : Option String
    pub version : Option ℕ
    pub asn : Option ℕ
    pub hold_time : Option ℕ
    pub router_id : Option String
    pub capabilities : Option String
    pub notification : Option Notification
    pub state : Option String

  -- `RisLiveMessage`
  pub record RisLiveMessage : Type 0 where
    pub msg_type : String
    pub content : RisLiveData

  -- `Advertisement::new` and the derived `Default`
  abbrev pub default : Advertisement
  default = record {
    timestamp = p.zero_f64;
    peer = "";
    peer_asn = "";
    id = "";
    host = "";
    msg_type = unknown;
    path = none;
    community = none;
    origin = none;
    announcements = none;
    raw = none;
    withdrawals = none;
  }

  -- `From<RisLiveData> for Advertisement`. A `String` parses as a `String` without fail.
  unfoldable pub from_ris : RisLiveData → Advertisement
  from_ris d = record {
    timestamp = d.timestamp;
    peer = d.peer;
    peer_asn = d.peer_asn;
    id = d.id;
    host = d.host;
    msg_type = d.msg_type;
    path = d.path;
    community = d.community;
    origin = d.origin;
    announcements = d.announcements;
    raw = d.raw;
    withdrawals = d.withdrawals;
  }

  -- `path.clone().unwrap_or_default()`
  abbrev pub path_or_empty : Advertisement → AsPath
  path_or_empty ad = elim ad.path [ none ↦ [] | some path ↦ path ]

  -- The route for one prefix text: none if the peer or the prefix does not parse.
  unfoldable pub route_for : Advertisement → String → String → Option (Route p)
  route_for ad next_hop text = elim (p.parse_ip ad.peer) [
    | none ↦ none
    | some peer ↦ elim (p.from_str_truncate text) [
      | none ↦ none
      | some prefix ↦
          some (record {
            peer = peer;
            prefix = prefix;
            next_hop = next_hop;
            as_path = path_or_empty ad;
          })
    ]
  ]

  -- `Advertisement::get_announcements`
  unfoldable pub get_announcements : Advertisement → List (Route p)
  unfolding route_for filter_map flat_map
  get_announcements ad = elim ad.announcements [
    | none ↦ []
    | some announcements ↦
        flat_map (λ a. filter_map (route_for ad a.next_hop) a.prefixes) announcements
  ]

  -- `Advertisement::get_withdrawals`
  unfoldable pub get_withdrawals : Advertisement → List (Route p)
  unfolding route_for filter_map
  get_withdrawals ad = elim ad.withdrawals [
    | none ↦ []
    | some withdrawals ↦ filter_map (route_for ad "") withdrawals
  ]
