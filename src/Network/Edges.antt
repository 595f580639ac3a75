-- ===== src/Network/Edges.antt =====
-- The sessions that `from_topology` (modules/network.rs) makes for the edges.
use netfabric_bgp_router.Prelude.{
  ℕ, suc, ◌≤◌, ◌<◌, ◌≡◌, ◌≢◌, refl, sym, subst, ap, ◌∙◌, true, ite, if_pos, if_neg, none, some,
  List, [], ◌∷◌, ◌++◌, arith, ok,
}
use mathlib.Core.Option.{some-injective, none-ne-some}
use mathlib.Core.List.{append-nil}
use netfabric_bgp_router.Prelude.HashMap
use netfabric_bgp_router.Platform.{Platform}
use netfabric_bgp_router.PrefixTable.{PrefixTable}
use netfabric_bgp_router.RibEntry.{BgpRibEntry}
use netfabric_bgp_router.MessageBus.{MessageBus}
use netfabric_bgp_router.Session.{BgpSession}
use netfabric_bgp_router.Process
use netfabric_bgp_router.Process.{BgpProcess}
use netfabric_bgp_router.Router.{Router}
use netfabric_bgp_router.Network.{Routers, done, get_router_pair_mut}
use netfabric_bgp_router.Network.Build.{Supply, add_to_first, add_sessions}
use netfabric_bgp_router.Network.Links.{IsFree, with_taken, IsFree-with_taken}
use netfabric_bgp_router.Network.Vertices.{HasSessions, Runs}

module _ (p : Platform) where
  -- The session, if the vertex is the end of the edge.
  abbrev pub at_end : p.Uuid → p.Uuid → BgpSession p → List (BgpSession p)
  at_end id a s = ite (p.uuid_discrete a id) (s ∷ []) []

  at_end_same : (id a : p.Uuid) (s : BgpSession p) → a ≡ id → at_end id a s ≡ s ∷ []
  at_end_same id a s e = if_pos (p.uuid_discrete a id) e _ _

  at_end_other : (id a : p.Uuid) (s : BgpSession p) → a ≢ id → at_end id a s ≡ []
  at_end_other id a s ne = if_neg (p.uuid_discrete a id) ne _ _

module _ (p : Platform) (T : PrefixTable p (BgpRibEntry p)) (supply : Supply p) where
  added_to_first :
      (r : Router p T) (id : p.Uuid) (ss : List (BgpSession p)) (s : BgpSession p)
      → HasSessions p T r id ss
      → (r' : Router p T) × (add_to_first p T supply r s ≡ some r')
        × HasSessions p T r' id (ss ++ (s ∷ []))
  unfolding add_to_first
  added_to_first r id ss s h =
      let more = Process.add_session p T h.process s in
      (
        record r { bgp_processes = more ∷ [] },
        ground (arith, h.only),
        record {
          named = h.named;
          process = more;
          only = refl;
          linked = ap (λ x. x ++ (s ∷ [])) h.linked;
        },
      )

  first_sessions : Router p T → List (BgpSession p)
  first_sessions r = elim r.bgp_processes [ [] ↦ [] | process ∷ others ↦ process.sessions ]

  Runs-unique :
      (routers : Routers p T) (id : p.Uuid) (ss ts : List (BgpSession p))
      → Runs p T routers id ss
      → Runs p T routers id ts
      → ss ≡ ts
  unfolding first_sessions
  Runs-unique routers id ss ts (r, at, h) (r', at', h') =
      let same : r ≡ r' = some-injective _ _ (sym at ∙ at') in
      let one : first_sessions r ≡ ss = rw (h.only, first_sessions) h.linked in
      let two : first_sessions r' ≡ ts = rw (h'.only, first_sessions) h'.linked in
      sym one ∙ (ap first_sessions same ∙ two)

  -- What the two ends of an edge get, as `add_sessions` gives the sessions out.
  abbrev pub given : p.Uuid → p.Uuid → p.Uuid → BgpSession p → BgpSession p → List (BgpSession p)
  given id a b s1 s2 = at_end p id a s1 ++ at_end p id b s2

  given_first :
      (id a b : p.Uuid) (s1 s2 : BgpSession p) → a ≡ id → b ≢ id → given id a b s1 s2 ≡ s1 ∷ []
  given_first id a b s1 s2 e ne =
      ap (λ x. x ++ at_end p id b s2) (at_end_same p id a s1 e)
      ∙ ap (λ x. s1 ∷ x) (at_end_other p id b s2 ne)

  given_second :
      (id a b : p.Uuid) (s1 s2 : BgpSession p) → a ≢ id → b ≡ id → given id a b s1 s2 ≡ s2 ∷ []
  given_second id a b s1 s2 ne e =
      ap (λ x. x ++ at_end p id b s2) (at_end_other p id a s1 ne) ∙ at_end_same p id b s2 e

  given_none : (id a b : p.Uuid) (s1 s2 : BgpSession p) → a ≢ id → b ≢ id → given id a b s1 s2 ≡ []
  given_none id a b s1 s2 na nb =
      ap (λ x. x ++ at_end p id b s2) (at_end_other p id a s1 na) ∙ at_end_other p id b s2 nb

  get_at :
      (routers : Routers p T) {a id : p.Uuid}
      → a ≡ id
      → HashMap.get p.uuid_discrete id routers ≡ HashMap.get p.uuid_discrete a routers
  get_at routers e = ap (λ x. HashMap.get p.uuid_discrete x routers) (sym e)

  pub sessions_added :
      (routers : Routers p T) (a b : p.Uuid) (s1 s2 : BgpSession p)
      (held_a held_b : List (BgpSession p))
      → Runs p T routers a held_a
      → Runs p T routers b held_b
      → a ≢ b
      → (routers' : Routers p T) × (add_sessions p T supply routers a b s1 s2 ≡ ok (done routers'))
        × ((id : p.Uuid) (ss : List (BgpSession p))
            → Runs p T routers id ss
            → Runs p T routers' id (ss ++ given id a b s1 s2))
        × ((id : p.Uuid)
            → HashMap.get p.uuid_discrete id routers ≡ none
            → HashMap.get p.uuid_discrete id routers' ≡ none)
  unfolding add_sessions get_router_pair_mut
  sessions_added routers a b s1 s2 held_a held_b (r1, at1, h1) (r2, at2, h2) differ =
      let (r1', added1, h1') = added_to_first r1 a held_a s1 h1 in
      let (r2', added2, h2') = added_to_first r2 b held_b s2 h2 in
      let first = HashMap.insert p.uuid_discrete a r1' routers in
      let both = HashMap.insert p.uuid_discrete b r2' first in
      let at_a = HashMap.get-insert_self p.uuid_discrete a r1' routers in
      let at_b = HashMap.get-insert_self p.uuid_discrete b r2' first in
      (
        both,
        ground (arith, at1, at2, added1, added2, differ),
        λ id ss now. elim (p.uuid_discrete b id) [
          | yes eb ↦
              let same =
                Runs-unique routers b held_b ss (r2, at2, h2)
                  (subst (λ x. Runs p T routers x ss) (sym eb) now) in
              let total : held_b ++ (s2 ∷ []) ≡ ss ++ given id a b s1 s2 =
                ap (λ x. x ++ (s2 ∷ [])) same
                ∙ ap (λ x. ss ++ x)
                    (sym (given_second id a b s1 s2 (λ ea. differ (ea ∙ sym eb)) eb)) in
              subst (λ x. Runs p T both x (ss ++ given id a b s1 s2)) eb
                (subst (Runs p T both b) total (r2', at_b, h2'))
          | no nb ↦ elim (p.uuid_discrete a id) [
            | yes ea ↦
                let same =
                  Runs-unique routers a held_a ss (r1, at1, h1)
                    (subst (λ x. Runs p T routers x ss) (sym ea) now) in
                let total : held_a ++ (s1 ∷ []) ≡ ss ++ given id a b s1 s2 =
                  ap (λ x. x ++ (s1 ∷ [])) same
                  ∙ ap (λ x. ss ++ x) (sym (given_first id a b s1 s2 ea nb)) in
                let still =
                  HashMap.get-insert_ne p.uuid_discrete b a r2' first (λ e. differ (sym e)) in
                subst (λ x. Runs p T both x (ss ++ given id a b s1 s2)) ea
                  (subst (Runs p T both a) total (r1', still ∙ at_a, h1'))
            | no na ↦
                let total : ss ≡ ss ++ given id a b s1 s2 =
                  sym (append-nil ss) ∙ ap (λ x. ss ++ x) (sym (given_none id a b s1 s2 na nb)) in
                let (r, at, h) = now in
                let still =
                  HashMap.get-insert_ne p.uuid_discrete b id r2' first nb
                  ∙ HashMap.get-insert_ne p.uuid_discrete a id r1' routers na in
                subst (Runs p T both id) total (r, still ∙ at, h)
          ]
        ],
        λ id bare.
            HashMap.get-insert_ne p.uuid_discrete b id r2' first
              (λ e. none-ne-some r2 (sym bare ∙ get_at routers e ∙ at2))
            ∙ HashMap.get-insert_ne p.uuid_discrete a id r1' routers
                (λ e. none-ne-some r1 (sym bare ∙ get_at routers e ∙ at1))
            ∙ bare,
      )

module _ (p : Platform) (supply : Supply p) where
  -- Every link gets two channels of its own, and the bus can be locked for them.
  pub record IsFresh : Type 0 where
    pub lock1 : (j : ℕ) → (supply.link j).locked1 ≡ true
    pub lock2 : (j : ℕ) → (supply.link j).locked2 ≡ true
    pub differ : (j : ℕ) → (supply.link j).channel1 ≢ (supply.link j).channel2
    pub apart1 :
        (i j : ℕ)
        → i < j
        → ((supply.link i).channel1 ≢ (supply.link j).channel1)
          × ((supply.link i).channel1 ≢ (supply.link j).channel2)
    pub apart2 :
        (i j : ℕ)
        → i < j
        → ((supply.link i).channel2 ≢ (supply.link j).channel1)
          × ((supply.link i).channel2 ≢ (supply.link j).channel2)

  -- The channels of the links from `k` on are not on the bus.
  abbrev pub Vacant : MessageBus p → ℕ → Type 0
  Vacant bus k =
      (j : ℕ)
      → k ≤ j
      → IsFree p bus (supply.link j).channel1 × IsFree p bus (supply.link j).channel2

  pub Vacant-suc :
      (bus : MessageBus p) (k n m : ℕ)
      → IsFresh
      → Vacant bus k
      → Vacant
          (with_taken p (with_taken p bus n (supply.link k).channel1) m (supply.link k).channel2)
          (suc k)
  Vacant-suc bus k n m f v j h =
      let (one, two) = f.apart1 k j (omega (arith, h)) in
      let (three, four) = f.apart2 k j (omega (arith, h)) in
      let (free1, free2) = v j (omega (arith, h)) in
      let taken = with_taken p bus n (supply.link k).channel1 in
      (
        IsFree-with_taken p taken m (supply.link k).channel2 (supply.link j).channel1 three
            (IsFree-with_taken p bus n (supply.link k).channel1 (supply.link j).channel1 one free1),
        IsFree-with_taken p taken m (supply.link k).channel2 (supply.link j).channel2 four
            (IsFree-with_taken p bus n (supply.link k).channel1 (supply.link j).channel2 two free2),
      )
