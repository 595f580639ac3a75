-- ===== src/PrefixTable.antt =====
-- The crate `ip_network_table`: a map from prefixes to values, with lookup of the longest prefix
-- that contains an address. It is not part of the repository, so it is an interface with laws.
use netfabric_bgp_router.Prelude.{
  ℕ, ◌≤◌, ◌≡◌, ◌↔◌, true, false, Option, none, some, List, Listed, ite, if_pos, if_neg, ◌≢◌,
}
use netfabric_bgp_router.Platform.{Platform, IpAddr}

module _ (p : Platform) where
  pub record PrefixTable (A : Type 0) : Type 1 where
    pub Table : Type 0
    pub empty : Table
    pub exact_match : Table → p.IpNetwork → Option A
    pub insert : Table → p.IpNetwork → A → Table
    pub remove : Table → p.IpNetwork → Table
    pub longest_match : Table → IpAddr → Option (p.IpNetwork × A)
    pub iter : Table → List (p.IpNetwork × A)
    pub len : Table → ℕ × ℕ

  -- The prefix stands in the table with the value, contains the address, and is the longest such.
  abbrev pub IsLongest :
      {A : Type 0} (T : PrefixTable A) → T.Table → IpAddr → p.IpNetwork → A → Type 0
  IsLongest {A} T t address n a =
      (T.exact_match t n ≡ some a)
      × (p.contains n address ≡ true)
      × ((m : p.IpNetwork) (b : A)
          → T.exact_match t m ≡ some b
          → p.contains m address ≡ true
          → p.netmask m ≤ p.netmask n)

  -- What the router relies on.
  pub record IsLawful (A : Type 0) (T : PrefixTable A) : Type 0 where
    pub exact_match-empty : (n : p.IpNetwork) → T.exact_match T.empty n ≡ none
    pub exact_match-insert :
        (t : T.Table) (n m : p.IpNetwork) (a : A)
        → T.exact_match (T.insert t n a) m
          ≡ ite (p.network_discrete n m) (some a) (T.exact_match t m)
    pub exact_match-remove :
        (t : T.Table) (n m : p.IpNetwork)
        → T.exact_match (T.remove t n) m ≡ ite (p.network_discrete n m) none (T.exact_match t m)
    pub longest_match_some :
        (t : T.Table) (address : IpAddr) (n : p.IpNetwork) (a : A)
        → T.longest_match t address ≡ some (n, a)
        → IsLongest T t address n a
    pub longest_match_none :
        (t : T.Table) (address : IpAddr) (n : p.IpNetwork) (a : A)
        → T.longest_match t address ≡ none
        → T.exact_match t n ≡ some a
        → p.contains n address ≡ false
    pub iter_iff :
        (t : T.Table) (n : p.IpNetwork) (a : A)
        → Listed (n, a) (T.iter t) ↔ (T.exact_match t n ≡ some a)

  module _ {A : Type 0} (T : PrefixTable A) (lawful : IsLawful A T) (t : T.Table)
      (n m : p.IpNetwork) where
    pub exact_match-insert_same : (a : A) → n ≡ m → T.exact_match (T.insert t n a) m ≡ some a
    exact_match-insert_same a e = rw (lawful.exact_match-insert t n m a, if_pos _ e)

    pub exact_match-insert_ne :
        (a : A) → n ≢ m → T.exact_match (T.insert t n a) m ≡ T.exact_match t m
    exact_match-insert_ne a ne = rw (lawful.exact_match-insert t n m a, if_neg _ ne)

    pub exact_match-remove_same : n ≡ m → T.exact_match (T.remove t n) m ≡ none
    exact_match-remove_same e = rw (lawful.exact_match-remove t n m, if_pos _ e)

    pub exact_match-remove_ne : n ≢ m → T.exact_match (T.remove t n) m ≡ T.exact_match t m
    exact_match-remove_ne ne = rw (lawful.exact_match-remove t n m, if_neg _ ne)
