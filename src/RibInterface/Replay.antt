-- ===== src/RibInterface/Replay.antt =====
-- What `BgpRibInterface::update` (components/bgp/bgp_rib.rs) does to the shared RIB: the calls of the
-- advertisements that it hears, in order.
use netfabric_bgp_router.Prelude.{
  ℕ, suc, ◌≡◌, ◌≢◌, refl, sym, subst, ◌∙◌, ap, Bool, Bool-cases, none, some, List, [], ◌∷◌, ◌++◌,
  map, get_elem?, set, get_elem?-lt, get_elem?-set_self, get_elem?-set_ne, arith, ok, ◌>>=◌,
  >>=-ok_cases, inl, inr, if◌then◌else◌,
}
use mathlib.Core.Option.{some-injective, none-ne-some}
use netfabric_bgp_router.Platform.{Platform}
use netfabric_bgp_router.PrefixTable.{PrefixTable, IsLawful}
use netfabric_bgp_router.Route.{Route}
use netfabric_bgp_router.BestRoute.{BestRoute}
use netfabric_bgp_router.RibEntry.{BgpRibEntry}
use netfabric_bgp_router.Advertisement.{Advertisement, get_announcements, get_withdrawals}
use netfabric_bgp_router.Rib.{BgpRib, insert_route, remove_route}
use netfabric_bgp_router.Rib.History.{Call, announce, withdraw, Memory, replay, run}
use netfabric_bgp_router.Rib.Refinement.{Refines, run-Refines}
use netfabric_bgp_router.RibInterface.{
  BgpRibInterface, Ribs, rib_at, report_each, update_one, update,
}

module _ (p : Platform) where
  -- What a router tells the RIB for one advertisement: its routes, then its withdrawals.
  unfoldable pub calls_of : p.Uuid → Advertisement p → List (Call p)
  calls_of id ad =
      map (announce id) (get_announcements p ad) ++ map (withdraw id) (get_withdrawals p ad)

  -- The calls for the advertisements that find the lock free.
  unfoldable pub heard : p.Uuid → (ℕ → Bool) → ℕ → List (Advertisement p) → List (Call p)
  heard id locked k [] = []
  heard id locked k (ad ∷ rest) =
      let later = heard id locked (suc k) rest in
      if locked k then calls_of id ad ++ later else later

module _ (p : Platform) (T : PrefixTable p (BgpRibEntry p)) where
  run-append :
      (cs ds : List (Call p)) (rib mid rib' : BgpRib p T)
      → run p T rib cs ≡ ok mid
      → run p T mid ds ≡ ok rib'
      → run p T rib (cs ++ ds) ≡ ok rib'
  unfolding run
  run-append [] ds rib mid rib' h e =
      let same : rib ≡ mid = ground arith in subst (λ x. run p T x ds ≡ ok rib') (sym same) e
  run-append (announce id r ∷ cs) ds rib mid rib' h e =
      let ((b, now), first, more) = >>=-ok_cases (insert_route p T rib r id) _ h in
      rw first (run-append cs ds now mid rib' more e)
  run-append (withdraw id r ∷ cs) ds rib mid rib' h e =
      let ((b, now), first, more) = >>=-ok_cases (remove_route p T rib r id) _ h in
      rw first (run-append cs ds now mid rib' more e)

  announced-run :
      (id : p.Uuid) (routes : List (Route p)) (rib rib' : BgpRib p T) (reports : List (BestRoute p))
      → report_each p T (insert_route p T) rib id routes ≡ ok (reports, rib')
      → run p T rib (map (announce id) routes) ≡ ok rib'
  unfolding report_each run
  announced-run id [] rib rib' reports h = ground arith
  announced-run id (r ∷ routes) rib rib' reports h =
      let ((b, now), first, more) = >>=-ok_cases (insert_route p T rib r id) _ h in
      let ((others, last), rest, done) =
        >>=-ok_cases (report_each p T (insert_route p T) now id routes) _ more in
      let same : last ≡ rib' = ground arith in
      rw first (announced-run id routes now rib' others (rest ∙ ap (λ x. ok (others, x)) same))

  withdrawn-run :
      (id : p.Uuid) (routes : List (Route p)) (rib rib' : BgpRib p T) (reports : List (BestRoute p))
      → report_each p T (remove_route p T) rib id routes ≡ ok (reports, rib')
      → run p T rib (map (withdraw id) routes) ≡ ok rib'
  unfolding report_each run
  withdrawn-run id [] rib rib' reports h = ground arith
  withdrawn-run id (r ∷ routes) rib rib' reports h =
      let ((b, now), first, more) = >>=-ok_cases (remove_route p T rib r id) _ h in
      let ((others, last), rest, done) =
        >>=-ok_cases (report_each p T (remove_route p T) now id routes) _ more in
      let same : last ≡ rib' = ground arith in
      rw first (withdrawn-run id routes now rib' others (rest ∙ ap (λ x. ok (others, x)) same))

  -- The RIB of an interface after a call, and that the others are as they were.
  pub record Updated (i i' : BgpRibInterface p T) (ribs ribs' : Ribs p T) (calls : List (Call p))
      : Type 0 where
    pub same_client : i'.client_id ≡ i.client_id
    pub same_rib : i'.rib ≡ i.rib
    pub others : (k : ℕ) → i.rib ≢ k → get_elem? ribs' k ≡ get_elem? ribs k
    pub absent : get_elem? ribs i.rib ≡ none → get_elem? ribs' i.rib ≡ none
    pub ran :
        (rib : BgpRib p T)
        → get_elem? ribs i.rib ≡ some rib
        → (rib' : BgpRib p T) × (get_elem? ribs' i.rib ≡ some rib') × (run p T rib calls ≡ ok rib')

  abbrev Answer : BgpRibInterface p T × Ribs p T → BgpRibInterface p T × Ribs p T → Type 0
  Answer x y = x ≡ y

  update_one-Updated :
      (i i' : BgpRibInterface p T) (ribs ribs' : Ribs p T) (ad : Advertisement p)
      → update_one p T i ribs ad ≡ ok (i', ribs')
      → Updated i i' ribs ribs' (calls_of p i.client_id ad)
  unfolding update_one calls_of
  update_one-Updated i i' ribs ribs' ad h =
      let id = i.client_id in
      let (rib, at, h1) = >>=-ok_cases (rib_at p T ribs i.rib) _ h in
      let ((announced, mid), first, h2) =
        >>=-ok_cases (report_each p T (insert_route p T) rib id (get_announcements p ad)) _ h1 in
      let ((withdrawn, rib'), second, h3) =
        >>=-ok_cases (report_each p T (remove_route p T) mid id (get_withdrawals p ad)) _ h2 in
      let found : get_elem? ribs i.rib ≡ some rib = ground arith in
      let after : BgpRibInterface p T = record i {
        announced = i.announced ++ announced;
        withdrawn = i.withdrawn ++ withdrawn;
      } in
      let same : Answer (after, set ribs i.rib rib') (i', ribs') = ground arith in
      let all =
        run-append (map (announce id) (get_announcements p ad))
          (map (withdraw id) (get_withdrawals p ad)) rib mid rib'
          (announced-run id _ rib mid announced first)
          (withdrawn-run id _ mid rib' withdrawn second) in
      subst (λ x. Updated i x.0 ribs x.1 (calls_of p id ad)) same
        (record {
          same_client = refl;
          same_rib = refl;
          others = λ k ne. get_elem?-set_ne ribs i.rib k rib' ne;
          absent = λ e. absurd (none-ne-some rib (sym e ∙ found));
          ran = λ old e.
              let one : rib ≡ old = some-injective _ _ (sym found ∙ e) in
              (
                rib',
                get_elem?-set_self ribs i.rib rib' (get_elem?-lt ribs i.rib found),
                subst (λ x. run p T x (calls_of p id ad) ≡ ok rib') one all,
              );
        })

  Updated-trans :
      (i i' i'' : BgpRibInterface p T) (ribs ribs' ribs'' : Ribs p T) (cs ds : List (Call p))
      → Updated i i' ribs ribs' cs
      → Updated i' i'' ribs' ribs'' ds
      → Updated i i'' ribs ribs'' (cs ++ ds)
  Updated-trans i i' i'' ribs ribs' ribs'' cs ds u v = record {
    same_client = v.same_client ∙ u.same_client;
    same_rib = v.same_rib ∙ u.same_rib;
    others = λ k ne. v.others k (λ e. ne (sym u.same_rib ∙ e)) ∙ u.others k ne;
    absent = λ e.
        ap (get_elem? ribs'') (sym u.same_rib)
        ∙ v.absent (ap (get_elem? ribs') u.same_rib ∙ u.absent e);
    ran = λ rib e.
        let (mid, at, first) = u.ran rib e in
        let (last, at', second) = v.ran mid (ap (get_elem? ribs') u.same_rib ∙ at) in
        (
          last,
          ap (get_elem? ribs'') (sym u.same_rib) ∙ at',
          run-append cs ds rib mid last first second,
        );
  }

  -- `update` keeps the client and the RIB that the interface refers to, leaves all other RIBs as
  -- they are, and makes on its own RIB the calls of the advertisements that find the lock free: for
  -- each its announcements and then its withdrawals.
  pub update-Updated :
      (i i' : BgpRibInterface p T) (ribs ribs' : Ribs p T) (locked : ℕ → Bool) (k : ℕ)
      (ads : List (Advertisement p))
      → update p T i ribs locked k ads ≡ ok (i', ribs')
      → Updated i i' ribs ribs' (heard p i.client_id locked k ads)
  unfolding update heard run
  update-Updated i i' ribs ribs' locked k [] h =
      let same : Answer (i, ribs) (i', ribs') = ground arith in
      subst (λ x. Updated i x.0 ribs x.1 []) same
        (record {
          same_client = refl;
          same_rib = refl;
          others = λ k ne. refl;
          absent = λ e. e;
          ran = λ rib e. (rib, e, refl);
        })
  update-Updated i i' ribs ribs' locked k (ad ∷ rest) h =
      let then_rest =
        λ (x : BgpRibInterface p T × Ribs p T). update p T x.0 x.1 locked (suc k) rest in
      let turn = λ (b : Bool).
        ((if b then update_one p T i ribs ad else ok (i, ribs)) >>= then_rest) ≡ ok (i', ribs') in
      elim (Bool-cases (locked k)) [
        | inl free ↦
            let ((mid, now), first, more) =
              >>=-ok_cases (update_one p T i ribs ad) then_rest (subst turn free h) in
            let one = update_one-Updated i mid ribs now ad first in
            let later =
              subst (λ c. Updated mid i' now ribs' (heard p c locked (suc k) rest)) one.same_client
                (update-Updated mid i' now ribs' locked (suc k) rest more) in
            let calls = heard p i.client_id locked (suc k) rest in
            rw free
              (Updated-trans i mid i' ribs now ribs' (calls_of p i.client_id ad) calls one later)
        | inr busy ↦
            rw busy (update-Updated i i' ribs ribs' locked (suc k) rest (subst turn busy h))
      ]

  -- If the RIB of an interface shows what the routers have announced to it, it does so after `update`:
  -- for the client the advertisements that found the lock free are replayed, in order, and for all
  -- other routers nothing has changed.
  pub update-Refines :
      (lawful : IsLawful p (BgpRibEntry p) T) (i i' : BgpRibInterface p T) (ribs ribs' : Ribs p T)
      (locked : ℕ → Bool) (ads : List (Advertisement p)) (rib : BgpRib p T) (m : Memory p)
      → get_elem? ribs i.rib ≡ some rib
      → Refines p T lawful rib m
      → update p T i ribs locked 0 ads ≡ ok (i', ribs')
      → (rib' : BgpRib p T) × (get_elem? ribs' i.rib ≡ some rib')
        × Refines p T lawful rib' (replay p (heard p i.client_id locked 0 ads) m)
  update-Refines lawful i i' ribs ribs' locked ads rib m at r h =
      let (rib', at', ran) = (update-Updated i i' ribs ribs' locked 0 ads h).ran rib at in
      (rib', at', run-Refines p T lawful (heard p i.client_id locked 0 ads) rib rib' m r ran)
