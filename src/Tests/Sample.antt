-- ===== src/Tests/Sample.antt =====
-- A small platform: numbers for identifiers, and two kinds of networks, all addresses and a single
-- IPv4 address. Its prefix table is an association list.
use netfabric_bgp_router.Prelude.{
  ℕ, zero, suc, ◌≡◌, ◌≢◌, ◌↔◌, inl, inr, refl, sym, ◌∙◌, ap, Bool, true, false, String,
  String-discrete, Option, none, some, List, [], ◌∷◌, Listed, ite, ◌==◌, ℕ_discrete, arith, length,
  if_pos, if_neg,
}
use mathlib.Core.Option.{some-injective}
use netfabric_bgp_router.Prelude.HashMap
use netfabric_bgp_router.Tests.Print.{marks, read_marks, read-marks}
use netfabric_bgp_router.Platform.{Platform, IpAddr, v4, v6}
use netfabric_bgp_router.PrefixTable.{PrefixTable, IsLawful, IsLongest}

pub data Net : Type 0 where
  everything : Net
  host : ℕ → Net

pub Net-discrete : Discrete Net
Net-discrete = hlevel ℕ_discrete

abbrev pub net_contains : Net → IpAddr → Bool
net_contains everything a = true
net_contains (host n) (v4 m) = n == m
net_contains (host n) (v6 m) = false

abbrev pub net_mask : Net → ℕ
net_mask everything = 0
net_mask (host n) = 32

abbrev pub net_address : Net → IpAddr
net_address everything = v4 0
net_address (host n) = v4 n

abbrev print_net : Net → String
print_net everything = marks 0
print_net (host n) = marks (suc n)

abbrev net_of : ℕ → Net
net_of zero = everything
net_of (suc n) = host n

abbrev pub read_net : String → Option Net
read_net s = some (net_of (read_marks s))

pub read-print : (n : Net) → read_net (print_net n) ≡ some n
read-print everything = ap (λ k. some (net_of k)) (read-marks 0)
read-print (host n) = ap (λ k. some (net_of k)) (read-marks (suc n))

abbrev pub parse_net : String → Option Net
parse_net s =
    ite (String-discrete s "0.0.0.0/0") (some everything)
      (ite (String-discrete s "0.0.0.7/32") (some (host 7)) none)

abbrev pub sample : Platform
sample = record {
  Uuid = ℕ;
  uuid_discrete = ℕ_discrete;
  nil = 0;
  uuid_to_string = λ id. "id";
  IpNetwork = Net;
  network_discrete = Net-discrete;
  default_network = everything;
  from_str_truncate = parse_net;
  network_to_string = print_net;
  is_ipv4 = λ n. true;
  is_ipv6 = λ n. false;
  netmask = net_mask;
  network_address = net_address;
  contains = net_contains;
  F64 = ℕ;
  zero_f64 = 0;
  parse_ip = λ s. ite (String-discrete s "0.0.0.1") (some (v4 1)) none;
  ip_to_string = λ a. "0.0.0.1";
}

module _ {A : Type 0} where
  abbrev lookup : Net → List (Net × A) → Option (Net × A)
  lookup n t = elim (HashMap.get Net-discrete n t) [ none ↦ none | some a ↦ some (n, a) ]

  abbrev longest : List (Net × A) → IpAddr → Option (Net × A)
  longest t (v6 m) = lookup everything t
  longest t (v4 m) = elim (HashMap.get Net-discrete (host m) t) [
    | some a ↦ some (host m, a)
    | none ↦ lookup everything t
  ]

  -- Each key with its first value.
  abbrev entries : List (Net × A) → List (Net × A)
  entries [] = []
  entries ((n, a) ∷ t) = (n, a) ∷ HashMap.remove Net-discrete n (entries t)

abbrev pub sample_table : (A : Type 0) → PrefixTable sample A
sample_table A = record {
  Table = List (Net × A);
  empty = [];
  exact_match = λ t n. HashMap.get Net-discrete n t;
  insert = λ t n a. HashMap.insert Net-discrete n a t;
  remove = λ t n. HashMap.remove Net-discrete n t;
  longest_match = longest;
  iter = entries;
  len = λ t. (length (entries t), 0);
}

module _ {A : Type 0} where
  Listed-remove :
      (k : Net) (t : List (Net × A)) (n : Net) (a : A)
      → Listed (n, a) (HashMap.remove Net-discrete k t) ↔ ((k ≢ n) × Listed (n, a) t)
  Listed-remove k [] n a = (λ h. absurd h, λ h. h.1)
  Listed-remove k ((j, w) ∷ t) n a = elim (Net-discrete j k) [
    | yes e ↦ rw (if_pos _ e) (
      λ l. let (ne, l') = (Listed-remove k t n a).0 l in (ne, inr l'),
      λ (ne, l). elim l [
        | inl here ↦ absurd (ne (sym e ∙ ap (λ x. x.0) here))
        | inr there ↦ (Listed-remove k t n a).1 (ne, there)
      ],
    )
    | no ne ↦ rw (if_neg _ ne) (
      elim [
        | inl here ↦ ((λ e. ne (ap (λ x. x.0) here ∙ sym e)), inl here)
        | inr there ↦ let (ne', l') = (Listed-remove k t n a).0 there in (ne', inr l')
      ],
      λ (ne', l). elim l [
        | inl here ↦ inl here
        | inr there ↦ inr ((Listed-remove k t n a).1 (ne', there))
      ],
    )
  ]

  Listed-entries :
      (t : List (Net × A)) (n : Net) (a : A)
      → Listed (n, a) (entries t) ↔ (HashMap.get Net-discrete n t ≡ some a)
  Listed-entries [] n a = (λ h. absurd h, λ h. cc)
  Listed-entries ((j, w) ∷ t) n a =
      let ih = Listed-entries t n a in
      let kept = Listed-remove j (entries t) n a in
      elim (Net-discrete j n) [
        | yes e ↦ rw (if_pos _ e) (
          elim [ inl here ↦ ap (λ x. some x.1) here | inr there ↦ absurd ((kept.0 there).0 e) ],
          λ h. inl (λ i. (e i, some-injective _ _ h i)),
        )
        | no ne ↦ rw (if_neg _ ne) (
          elim [ inl here ↦ absurd (ne (ap (λ x. x.0) here)) | inr there ↦ ih.0 (kept.0 there).1 ],
          λ h. inr (kept.1 (ne, ih.1 h)),
        )
      ]

  longest-some :
      (t : List (Net × A)) (address : IpAddr) (n : Net) (a : A)
      → longest t address ≡ some (n, a)
      → IsLongest sample (sample_table A) t address n a
  longest-some t (v4 m) everything a h = (
    ground arith,
    refl,
    elim [ everything ↦ λ b e c. omega arith | host k ↦ λ b e c. absurd (ground arith) ],
  )
  longest-some t (v4 m) (host k) a h = (
    ground arith,
    ground arith,
    elim [ everything ↦ λ b e c. omega arith | host k ↦ λ b e c. omega arith ],
  )
  longest-some t (v6 m) everything a h = (
    ground arith,
    refl,
    elim [ everything ↦ λ b e c. omega arith | host k ↦ λ b e c. absurd (ground arith) ],
  )
  longest-some t (v6 m) (host k) a h = absurd (ground arith)

  longest-none :
      (t : List (Net × A)) (address : IpAddr) (n : Net) (a : A)
      → longest t address ≡ none
      → HashMap.get Net-discrete n t ≡ some a
      → net_contains n address ≡ false
  longest-none t (v4 m) everything a h e = ground arith
  longest-none t (v4 m) (host k) a h e = ground arith
  longest-none t (v6 m) everything a h e = ground arith
  longest-none t (v6 m) (host k) a h e = ground arith

pub sample-IsLawful : (A : Type 0) → IsLawful sample A (sample_table A)
sample-IsLawful A = record {
  exact_match-empty = λ n. refl;
  exact_match-insert = λ t n m a. HashMap.get-insert Net-discrete n m a t;
  exact_match-remove = λ t n m. HashMap.get-remove Net-discrete n m t;
  longest_match_some = longest-some;
  longest_match_none = longest-none;
  iter_iff = Listed-entries;
}
