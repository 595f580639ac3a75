-- ===== src/Rib/Refinement.antt =====
-- A run of calls on the RIB (components/bgp/bgp_rib.rs) shows each router what the replay of the
-- calls on a memory of announcements holds.
use netfabric_bgp_router.Prelude.{
  ◌≡◌, refl, ◌↔◌, inl, inr, sym, subst, ◌∙◌, Option, List, [], ◌∷◌, Listed, arith, ok, panic,
  Outcome, ◌>>=◌,
}
use mathlib.Core.Option.{none-ne-some}
use netfabric_bgp_router.Platform.{Platform}
use netfabric_bgp_router.PrefixTable.{PrefixTable, IsLawful}
use netfabric_bgp_router.Route.{Route}
use netfabric_bgp_router.BestRoute.{BestRoute}
use netfabric_bgp_router.RibEntry.{BgpRibEntry}
use netfabric_bgp_router.Rib.{BgpRib, new, insert_route, remove_route}
use netfabric_bgp_router.Rib.Valid.{IsValid, Sees, new-IsValidRib}
use netfabric_bgp_router.Rib.Insert.{insert_route_total}
use netfabric_bgp_router.Rib.Remove.{remove_route_total}
use netfabric_bgp_router.Rib.History.{
  Call, announce, withdraw, Memory, nothing, remember, replay, run, Represents, Listed-announce,
  Listed-withdraw,
}

iff_trans : {A B C : Type 0} → A ↔ B → B ↔ C → A ↔ C
iff_trans f g = (λ a. g.0 (f.0 a), λ c. f.1 (g.1 c))

module _ (p : Platform) (T : PrefixTable p (BgpRibEntry p))
    (lawful : IsLawful p (BgpRibEntry p) T) where
  -- The RIB is valid and shows what the memory has.
  pub record Refines (rib : BgpRib p T) (m : Memory p) : Type 0 where
    pub valid : IsValid p T rib
    pub shows : Represents p T rib m

  insert-Refines :
      (rib rib' : BgpRib p T) (m : Memory p) (r : Route p) (id : p.Uuid) (b : Option (BestRoute p))
      → Refines rib m
      → insert_route p T rib r id ≡ ok (b, rib')
      → Refines rib' (remember p (announce id r) m)
  insert-Refines rib rib' m r id b h e = elim (insert_route_total p T lawful rib r id h.valid) [
    | inl (full, stuck) ↦ absurd (ground arith)
    | inr (room, k, b', now, e', g, valid, sees) ↦
        let eq : now ≡ rib' = ground arith in
        subst (λ x. Refines x (remember p (announce id r) m)) eq
          (record {
            valid = valid;
            shows = λ j s. iff_trans (sees j s) (
                iff_trans
                  (
                    elim [ inl old ↦ inl ((h.shows j s).0 old) | inr now' ↦ inr now' ],
                    elim [ inl old ↦ inl ((h.shows j s).1 old) | inr now' ↦ inr now' ],
                  )
                  (let l = Listed-announce p id j r s m in (l.1, l.0)));
          })
  ]

  remove-Refines :
      (rib rib' : BgpRib p T) (m : Memory p) (r : Route p) (id : p.Uuid) (b : Option (BestRoute p))
      → Refines rib m
      → remove_route p T rib r id ≡ ok (b, rib')
      → Refines rib' (remember p (withdraw id r) m)
  remove-Refines rib rib' m r id b h e = elim (remove_route_total p T lawful rib r id h.valid) [
    | inl (full, stuck) ↦ absurd (ground arith)
    | inr (room, k, b', now, e', g, valid, sees) ↦
        let eq : now ≡ rib' = ground arith in
        subst (λ x. Refines x (remember p (withdraw id r) m)) eq
          (record {
            valid = valid;
            shows = λ j s. iff_trans (sees j s) (
                iff_trans
                  (
                    λ (old, other). ((h.shows j s).0 old, other),
                    λ (old, other). ((h.shows j s).1 old, other),
                  )
                  (let l = Listed-withdraw p id j r s m in (l.1, l.0)));
          })
  ]

  >>=-eq-ok :
      {A : Type 0} (o : Outcome (A × BgpRib p T)) (calls : List (Call p)) {rib' : BgpRib p T}
      → (o >>= (λ x. run p T x.1 calls)) ≡ ok rib'
      → (a : A) × (rib : BgpRib p T) × (o ≡ ok (a, rib)) × (run p T rib calls ≡ ok rib')
  >>=-eq-ok (ok (a, rib)) calls h = (a, rib, refl, h)
  >>=-eq-ok (panic m) calls h = cc

  pub run-Refines :
      (calls : List (Call p)) (rib rib' : BgpRib p T) (m : Memory p)
      → Refines rib m
      → run p T rib calls ≡ ok rib'
      → Refines rib' (replay p calls m)
  unfolding run replay
  run-Refines [] rib rib' m h e =
      let eq : rib ≡ rib' = ground arith in subst (λ x. Refines x m) eq h
  run-Refines (announce id r ∷ calls) rib rib' m h e =
      let (b, mid, done, more) = >>=-eq-ok (insert_route p T rib r id) calls e in
      run-Refines calls mid rib' _ (insert-Refines rib mid m r id b h done) more
  run-Refines (withdraw id r ∷ calls) rib rib' m h e =
      let (b, mid, done, more) = >>=-eq-ok (remove_route p T rib r id) calls e in
      run-Refines calls mid rib' _ (remove-Refines rib mid m r id b h done) more

  pub new-Refines : Refines (new p T) (nothing p)
  new-Refines = record {
    valid = new-IsValidRib p T lawful;
    shows = λ j s. (
      λ h. absurd (none-ne-some h.0 (sym (lawful.exact_match-empty s.prefix) ∙ h.1)),
      λ h. absurd h,
    );
  }

  -- After any sequence of announcements and withdrawals that a new RIB takes without a panic, a
  -- router sees a route exactly if the replay of the calls on an empty memory has it for the router:
  -- if the router announced it and did not later withdraw a route of its peer and prefix.
  pub run-new_refines :
      (calls : List (Call p)) (rib : BgpRib p T)
      → run p T (new p T) calls ≡ ok rib
      → (j : p.Uuid) (s : Route p) → Sees p T rib j s ↔ Listed s (replay p calls (nothing p) j)
  run-new_refines calls rib e j s =
      (run-Refines calls (new p T) rib (nothing p) new-Refines e).shows j s
