-- ===== src/Rib/History.antt =====
-- The shared RIB (components/bgp/bgp_rib.rs) refines a table that remembers, for each router, the
-- routes it announced and did not withdraw.
use netfabric_bgp_router.Prelude.{
  ◌≡◌, ◌↔◌, ◌⊎◌, inl, inr, sym, subst, ◌∙◌, true, false, not, List, [], ◌∷◌, retain, Listed, ite,
  if_pos, if_neg, ok, Outcome, ◌>>=◌, Bool-cases,
}
use netfabric_bgp_router.Platform.{Platform}
use netfabric_bgp_router.PrefixTable.{PrefixTable}
use netfabric_bgp_router.Route.{Route}
use netfabric_bgp_router.RibEntry.{BgpRibEntry, same_origin}
use netfabric_bgp_router.RibEntry.Laws.{SameOrigin, same_origin_iff}
use netfabric_bgp_router.Rib.{BgpRib, insert_route, remove_route}
use netfabric_bgp_router.Rib.Valid.{Sees}

module _ (p : Platform) where
  -- What a router tells the RIB.
  pub data Call : Type 0 where
    announce withdraw : p.Uuid → Route p → Call

  -- The routes of each router.
  abbrev pub Memory : Type 0
  Memory = p.Uuid → List (Route p)

  abbrev pub nothing : Memory
  nothing id = []

  -- The specification of one call, and of a sequence of calls.
  unfoldable pub remember : Call → Memory → Memory
  remember (announce id r) m j = ite (p.uuid_discrete id j) (r ∷ m j) (m j)
  remember (withdraw id r) m j =
      ite (p.uuid_discrete id j) (retain (λ s. not (same_origin p r s)) (m j)) (m j)

  unfoldable pub replay : List Call → Memory → Memory
  replay [] m = m
  replay (c ∷ cs) m = replay cs (remember c m)

  Listed-retain :
      (r s : Route p) (l : List (Route p))
      → Listed s (retain (λ s. not (same_origin p r s)) l) ↔ (Listed s l × ¬ SameOrigin p r s)
  Listed-retain r s [] = (λ h. absurd h, λ h. absurd h.0)
  Listed-retain r s (x ∷ l) =
      let ih = Listed-retain r s l in
      elim (Bool-cases (same_origin p r x)) [
        | inl same ↦ rw same (
          λ h. let (there, other) = ih.0 h in (inr there, other),
          λ (h, other). elim h [
            | inl here ↦
                absurd (other (subst (SameOrigin p r) here ((same_origin_iff p r x).0 same)))
            | inr there ↦ ih.1 (there, other)
          ],
        )
        | inr differs ↦ rw differs (
          elim [
            | inl here ↦ (
              inl here,
              λ so. true≢false (
                  sym ((same_origin_iff p r x).1 (subst (SameOrigin p r) (sym here) so)) ∙ differs),
            )
            | inr there ↦ let (h, other) = ih.0 there in (inr h, other)
          ],
          λ (h, other). elim h [ inl here ↦ inl here | inr there ↦ inr (ih.1 (there, other)) ],
        )
      ]
    where
      true≢false : true ≡ false → ⊥
      true≢false e = cc

  pub Listed-announce :
      (id j : p.Uuid) (r s : Route p) (m : Memory)
      → Listed s (remember (announce id r) m j) ↔ (Listed s (m j) ⊎ ((id ≡ j) × (r ≡ s)))
  unfolding remember
  Listed-announce id j r s m = elim (p.uuid_discrete id j) [
    | yes e ↦ rw (if_pos _ e) (
      elim [ inl here ↦ inr (e, here) | inr there ↦ inl there ],
      elim [ inl there ↦ inr there | inr both ↦ inl both.1 ],
    )
    | no ne ↦
        rw (if_neg _ ne) (λ h. inl h, elim [ inl there ↦ there | inr both ↦ absurd (ne both.0) ])
  ]

  pub Listed-withdraw :
      (id j : p.Uuid) (r s : Route p) (m : Memory)
      → Listed s (remember (withdraw id r) m j) ↔ (Listed s (m j) × ¬ ((id ≡ j) × SameOrigin p r s))
  unfolding remember
  Listed-withdraw id j r s m = elim (p.uuid_discrete id j) [
    | yes e ↦
        let kept = Listed-retain r s (m j) in
        rw (if_pos _ e) (
          λ h. let (there, other) = kept.0 h in (there, λ both. other both.1),
          λ (there, other). kept.1 (there, λ so. other (e, so)),
        )
    | no ne ↦ rw (if_neg _ ne) (λ h. (h, λ both. ne both.0), λ h. h.0)
  ]

module _ (p : Platform) (T : PrefixTable p (BgpRibEntry p)) where
  -- The calls on the RIB in turn. The reports are not part of the state.
  unfoldable pub run : BgpRib p T → List (Call p) → Outcome (BgpRib p T)
  run rib [] = ok rib
  run rib (announce id r ∷ calls) = do (_, rib') ← insert_route p T rib r id; run rib' calls
  run rib (withdraw id r ∷ calls) = do (_, rib') ← remove_route p T rib r id; run rib' calls

  -- Each router sees in the RIB just what the memory has of it.
  abbrev pub Represents : BgpRib p T → Memory p → Type 0
  Represents rib m = (j : p.Uuid) (s : Route p) → Sees p T rib j s ↔ Listed s (m j)
