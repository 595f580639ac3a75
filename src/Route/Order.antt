-- ===== src/Route/Order.antt =====
-- `Ord for Route` (components/route.rs) is a total preorder, and ties are routes with the same
-- path length and the same peer.
use netfabric_bgp_router.Prelude.{◌<◌, ◌≡◌, ◌≢◌, ◌↔◌, ◌⊎◌, inl, inr, refl, length, Ordering, arith}
use netfabric_bgp_router.Platform.{Platform, IpAddr, v4, v6, ip_cmp}
use netfabric_bgp_router.Route.{Route, cmp, reverse}

ip_cmp-swap : (a b : IpAddr) → ip_cmp b a ≡ reverse (ip_cmp a b)
unfolding ip_cmp
ip_cmp-swap (v4 a) (v4 b) = ground arith
ip_cmp-swap (v4 a) (v6 b) = refl
ip_cmp-swap (v6 a) (v4 b) = refl
ip_cmp-swap (v6 a) (v6 b) = ground arith

ip_cmp-eq : (a b : IpAddr) → ip_cmp a b ≡ Ordering.eq → a ≡ b
unfolding ip_cmp
ip_cmp-eq (v4 a) (v4 b) h = ground arith
ip_cmp-eq (v4 a) (v6 b) h = cc
ip_cmp-eq (v6 a) (v4 b) h = cc
ip_cmp-eq (v6 a) (v6 b) h = ground arith

ip_cmp_trans :
    (a b c : IpAddr)
    → ip_cmp a b ≢ Ordering.gt
    → ip_cmp b c ≢ Ordering.gt
    → ip_cmp a c ≢ Ordering.gt
unfolding ip_cmp
ip_cmp_trans (v4 a) (v4 b) (v4 c) h k = ground arith
ip_cmp_trans (v4 a) (v4 b) (v6 c) h k = ground arith
ip_cmp_trans (v4 a) (v6 b) (v4 c) h k = ground arith
ip_cmp_trans (v4 a) (v6 b) (v6 c) h k = ground arith
ip_cmp_trans (v6 a) (v4 b) (v4 c) h k = ground arith
ip_cmp_trans (v6 a) (v4 b) (v6 c) h k = ground arith
ip_cmp_trans (v6 a) (v6 b) (v4 c) h k = ground arith
ip_cmp_trans (v6 a) (v6 b) (v6 c) h k = ground arith

-- The address that is tried first: an IPv6 address before an IPv4 one, and else the higher one.
abbrev pub PeerAbove : IpAddr → IpAddr → Type 0
PeerAbove (v4 a) (v4 b) = b < a
PeerAbove (v4 a) (v6 b) = ⊥
PeerAbove (v6 a) (v4 b) = Unit {0}
PeerAbove (v6 a) (v6 b) = b < a

ip_cmp-gt_iff : (a b : IpAddr) → (ip_cmp a b ≡ Ordering.gt) ↔ PeerAbove a b
unfolding ip_cmp
ip_cmp-gt_iff (v4 a) (v4 b) = (λ h. ground arith, λ h. ground arith)
ip_cmp-gt_iff (v4 a) (v6 b) = (λ h. ground arith, λ h. absurd h)
ip_cmp-gt_iff (v6 a) (v4 b) = (λ h. tt, λ h. refl)
ip_cmp-gt_iff (v6 a) (v6 b) = (λ h. ground arith, λ h. ground arith)

gt_or_not : (o : Ordering) → (o ≡ Ordering.gt) ⊎ (o ≢ Ordering.gt)
gt_or_not o = ground arith

module _ (p : Platform) where
  -- Comparing the other way round reverses the order.
  pub cmp-swap : (r s : Route p) → cmp p s r ≡ reverse (cmp p r s)
  unfolding cmp
  cmp-swap r s = ground (arith, ip_cmp-swap r.peer s.peer)

  -- Two routes tie exactly if their paths are of one length and they come from one peer.
  pub cmp-eq_iff :
      (r s : Route p)
      → (cmp p r s ≡ Ordering.eq) ↔ ((length r.as_path ≡ length s.as_path) × (r.peer ≡ s.peer))
  unfolding cmp
  cmp-eq_iff r s = (λ h. ground (arith, ip_cmp-eq r.peer s.peer), λ h. ground arith)

  -- The order is transitive: a route not preferred to a second one, which is not preferred to a
  -- third one, is not preferred to the third.
  pub cmp_trans :
      (r s t : Route p)
      → cmp p r s ≢ Ordering.gt
      → cmp p s t ≢ Ordering.gt
      → cmp p r t ≢ Ordering.gt
  unfolding cmp
  cmp_trans r s t h k =
      ground
        (arith, ip_cmp_trans r.peer s.peer t.peer, ip_cmp-eq r.peer s.peer, ip_cmp-eq s.peer t.peer)

  -- The first route has the shorter path, or one as long and the higher peer address.
  abbrev pub Preferred : Route p → Route p → Type 0
  Preferred r s =
      (length r.as_path < length s.as_path)
      ⊎ ((length r.as_path ≡ length s.as_path) × PeerAbove r.peer s.peer)

  -- `cmp` puts the preferred route above the other.
  pub cmp-gt_iff : (r s : Route p) → (cmp p r s ≡ Ordering.gt) ↔ Preferred r s
  unfolding cmp
  cmp-gt_iff r s =
      let peers = ip_cmp-gt_iff r.peer s.peer in
      (
        λ h. ground (arith, peers.0),
        elim [ inl shorter ↦ ground arith | inr tie ↦ ground (arith, tie.0, peers.1 tie.1) ],
      )

  pub Preferred-cases : (r s : Route p) → Preferred r s ⊎ (¬ Preferred r s)
  Preferred-cases r s = elim (gt_or_not (cmp p r s)) [
    | inl gt ↦ inl ((cmp-gt_iff r s).0 gt)
    | inr not_gt ↦ inr (λ h. not_gt ((cmp-gt_iff r s).1 h))
  ]

  pub Preferred-asym : (r s : Route p) → Preferred r s → ¬ Preferred s r
  Preferred-asym r s h k = ground (arith, cmp-swap r s, (cmp-gt_iff r s).1 h, (cmp-gt_iff s r).1 k)

  pub not-Preferred_trans : (r s t : Route p) → ¬ Preferred r s → ¬ Preferred s t → ¬ Preferred r t
  not-Preferred_trans r s t h k l =
      cmp_trans r s t (λ e. h ((cmp-gt_iff r s).0 e)) (λ e. k ((cmp-gt_iff s t).0 e))
        ((cmp-gt_iff r t).1 l)
