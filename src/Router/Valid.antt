-- ===== src/Router/Valid.antt =====
-- The work of a router (modules/router.rs), with its processes (components/bgp/bgp_process.rs), on the
-- RIBs that processes share.
use netfabric_bgp_router.Prelude.{
  ℕ, suc, ◌≡◌, sym, subst, ◌∙◌, ap, String, some, List, [], ◌∷◌, get_elem?, arith, ok, >>=-ok_cases,
  inl, inr, Option-cases, ℕ_discrete,
}
use mathlib.Core.Option.{some-injective, none-ne-some}
use netfabric_bgp_router.Platform.{Platform}
use netfabric_bgp_router.PrefixTable.{PrefixTable, IsLawful}
use netfabric_bgp_router.RibEntry.{BgpRibEntry}
use netfabric_bgp_router.Channel.{Store}
use netfabric_bgp_router.Rib.{BgpRib, insert_route, remove_route}
use netfabric_bgp_router.Rib.Valid.{IsValid}
use netfabric_bgp_router.Rib.Reachable.{insert-IsValidRib, remove-IsValidRib}
use netfabric_bgp_router.Rib.History.{Call, announce, withdraw, run}
use netfabric_bgp_router.RibInterface.{BgpRibInterface, Ribs, update}
use netfabric_bgp_router.RibInterface.Replay.{Updated, update-Updated}
use netfabric_bgp_router.Process
use netfabric_bgp_router.Process.{BgpProcess, receive_each}
use netfabric_bgp_router.Router.{Router, Turn, run_process, run_each, work}

module _ (p : Platform) (T : PrefixTable p (BgpRibEntry p))
    (lawful : IsLawful p (BgpRibEntry p) T) where
  run-IsValid :
      (calls : List (Call p)) (rib rib' : BgpRib p T)
      → IsValid p T rib
      → run p T rib calls ≡ ok rib'
      → IsValid p T rib'
  unfolding run
  run-IsValid [] rib rib' v h = let same : rib ≡ rib' = ground arith in subst (IsValid p T) same v
  run-IsValid (announce id r ∷ calls) rib rib' v h =
      let ((b, mid), first, more) = >>=-ok_cases (insert_route p T rib r id) _ h in
      run-IsValid calls mid rib' (insert-IsValidRib p T lawful rib mid r id b v first) more
  run-IsValid (withdraw id r ∷ calls) rib rib' v h =
      let ((b, mid), first, more) = >>=-ok_cases (remove_route p T rib r id) _ h in
      run-IsValid calls mid rib' (remove-IsValidRib p T lawful rib mid r id b v first) more

  -- Every RIB of the store is valid.
  abbrev pub AllValid : Ribs p T → Type 0
  AllValid ribs = (k : ℕ) (rib : BgpRib p T) → get_elem? ribs k ≡ some rib → IsValid p T rib

  Updated-AllValid :
      (i i' : BgpRibInterface p T) (ribs ribs' : Ribs p T) (calls : List (Call p))
      → Updated p T i i' ribs ribs' calls
      → AllValid ribs
      → AllValid ribs'
  Updated-AllValid i i' ribs ribs' calls u v k rib at = elim (ℕ_discrete i.rib k) [
    | no ne ↦ v k rib (sym (u.others k ne) ∙ at)
    | yes e ↦
        let at_own : get_elem? ribs' i.rib ≡ some rib = ap (get_elem? ribs') e ∙ at in
        elim (Option-cases (get_elem? ribs i.rib)) [
          | inl gone ↦ absurd (none-ne-some rib (sym (u.absent gone) ∙ at_own))
          | inr (old, before) ↦
              let (now, at', ran) = u.ran old before in
              subst (IsValid p T) (some-injective _ _ (sym at' ∙ at_own))
                (run-IsValid calls old now (v i.rib old before) ran)
        ]
  ]

  run_process-AllValid :
      (show_number : ℕ → String) (turn : Turn p T) (b b' : BgpProcess p T) (store store' : Store p)
      (ribs ribs' : Ribs p T)
      → run_process p T show_number turn b store ribs ≡ ok (b', store', ribs')
      → AllValid ribs
      → AllValid ribs'
  unfolding run_process Process.receive
  run_process-AllValid show_number turn b b' store store' ribs ribs' h v =
      let ads = (receive_each p T b.sessions store turn.locked 0).0 in
      let ((received, mid, end), first, more) =
        >>=-ok_cases (Process.receive p T b store ribs turn.locked turn.rib_locked) _ h in
      let ((i, now), updated, rest) =
        >>=-ok_cases (update p T b.rib_interface ribs turn.rib_locked 0 ads) _ first in
      let same : now ≡ ribs' = ground arith in
      subst AllValid same (
        Updated-AllValid b.rib_interface i ribs now _
          (update-Updated p T b.rib_interface i ribs now turn.rib_locked 0 ads updated) v)

  run_each-AllValid :
      (show_number : ℕ → String) (turns : ℕ → Turn p T) (k : ℕ) (bs bs' : List (BgpProcess p T))
      (store store' : Store p) (ribs ribs' : Ribs p T)
      → run_each p T show_number turns k bs store ribs ≡ ok (bs', store', ribs')
      → AllValid ribs
      → AllValid ribs'
  unfolding run_each
  run_each-AllValid show_number turns k [] bs' store store' ribs ribs' h v =
      let same : ribs ≡ ribs' = ground arith in subst AllValid same v
  run_each-AllValid show_number turns k (b ∷ bs) bs' store store' ribs ribs' h v =
      let ((b', mid, now), first, more) =
        >>=-ok_cases (run_process p T show_number (turns k) b store ribs) _ h in
      let ((others, last, end), rest, done) =
        >>=-ok_cases (run_each p T show_number turns (suc k) bs mid now) _ more in
      let same : end ≡ ribs' = ground arith in
      subst AllValid same (
        run_each-AllValid show_number turns (suc k) bs others mid last now end rest
          (run_process-AllValid show_number (turns k) b b' store mid ribs now first v))

  -- A turn of a router that does not panic keeps every RIB valid, whatever its processes receive,
  -- whichever locks they get, and whichever RIBs they share. The router keeps its identifier.
  pub work-AllValid :
      (show_number : ℕ → String) (turns : ℕ → Turn p T) (r r' : Router p T) (store store' : Store p)
      (ribs ribs' : Ribs p T)
      → AllValid ribs
      → work p T show_number turns r store ribs ≡ ok (r', store', ribs')
      → AllValid ribs' × (r'.id ≡ r.id)
  unfolding work
  work-AllValid show_number turns r r' store store' ribs ribs' v h =
      let ((processes, mid, now), first, more) =
        >>=-ok_cases (run_each p T show_number turns 0 r.bgp_processes store ribs) _ h in
      let same : now ≡ ribs' = ground arith in
      (
        subst AllValid same (
            run_each-AllValid show_number turns 0 r.bgp_processes processes store mid ribs now first
              v),
        ground arith,
      )
