-- ===== src/Platform.antt =====
-- What the router takes from code outside the repository: the crates `uuid` and `ip_network`, the
-- float type, and the parser and printer of `std::net::IpAddr`.
use netfabric_bgp_router.Prelude.{ℕ, String, Option, Bool, Ordering, compare, ℕ_discrete}

-- `std::net::IpAddr`, each address as the number that its octets spell.
pub data IpAddr : Type 0 where
  v4 : ℕ → IpAddr
  v6 : ℕ → IpAddr

pub IpAddr-discrete : Discrete IpAddr
IpAddr-discrete = hlevel ℕ_discrete

-- `Ord for IpAddr`: every IPv4 address stands before every IPv6 address.
unfoldable pub ip_cmp : IpAddr → IpAddr → Ordering
ip_cmp (v4 a) (v4 b) = compare a b
ip_cmp (v4 a) (v6 b) = Ordering.lt
ip_cmp (v6 a) (v4 b) = Ordering.gt
ip_cmp (v6 a) (v6 b) = compare a b

pub record Platform : Type 1 where
  -- `uuid::Uuid`
  pub Uuid : Type 0
  pub uuid_discrete : Discrete Uuid
  pub nil : Uuid
  pub uuid_to_string : Uuid → String
  -- `ip_network::IpNetwork`
  pub IpNetwork : Type 0
  pub network_discrete : Discrete IpNetwork
  pub default_network : IpNetwork
  pub from_str_truncate : String → Option IpNetwork
  pub network_to_string : IpNetwork → String
  pub is_ipv4 : IpNetwork → Bool
  pub is_ipv6 : IpNetwork → Bool
  pub netmask : IpNetwork → ℕ
  pub network_address : IpNetwork → IpAddr
  pub contains : IpNetwork → IpAddr → Bool
  -- `f64`
  pub F64 : Type 0
  pub zero_f64 : F64
  -- `str::parse::<IpAddr>` and `IpAddr::to_string`
  pub parse_ip : String → Option IpAddr
  pub ip_to_string : IpAddr → String
