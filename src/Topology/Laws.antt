-- ===== src/Topology/Laws.antt =====
-- Every edge of a topology (utils/topology.rs) joins two of its vertices, and vertices are distinct.
use netfabric_bgp_router.Prelude.{
  ◌≡◌, inl, inr, refl, true, false, List, [], ◌∷◌, All, All-append, arith, Bool-cases, ite,
}
use netfabric_bgp_router.Topology.{
  Topology, new, any_vertex, put_vertex, add_vertex, ensure_vertex, add_edge, add_edges, from_edges,
}

module _ {K V : Type 0} (dec : Discrete K) where
  -- No vertex stands twice.
  abbrev pub Distinct : List (K × V) → Type 0
  Distinct [] = Unit
  Distinct ((k, v) ∷ rest) = (any_vertex dec k rest ≡ false) × Distinct rest

  any_vertex-put :
      (k j : K) (v : V) (vs : List (K × V))
      → any_vertex dec j (put_vertex dec k v vs) ≡ ite (dec k j) true (any_vertex dec j vs)
  unfolding any_vertex put_vertex
  any_vertex-put k j v [] = ground arith
  any_vertex-put k j v ((i, w) ∷ vs) = ground (arith, any_vertex-put k j v vs)

  put-Distinct :
      (k : K) (v : V) (vs : List (K × V)) → Distinct vs → Distinct (put_vertex dec k v vs)
  unfolding put_vertex any_vertex
  put-Distinct k v [] h = (refl, tt)
  put-Distinct k v ((j, w) ∷ vs) h =
      ground (arith, put-Distinct k v vs h.1, any_vertex-put k j v vs)

  -- An edge between two vertices of the list.
  abbrev pub Joins : {E : Type 0} → List (K × V) → K × K × E → Type 0
  Joins vs e = (any_vertex dec e.0 vs ≡ true) × (any_vertex dec e.1 vs ≡ true)

  any_vertex_grows :
      (k j : K) (v : V) (vs : List (K × V))
      → any_vertex dec j vs ≡ true
      → any_vertex dec j (put_vertex dec k v vs) ≡ true
  any_vertex_grows k j v vs h = ground (arith, any_vertex-put k j v vs)

module _ {K V E : Type 0} (dec : Discrete K) where
  pub record IsValid (t : Topology K V E) : Type 0 where
    pub distinct : Distinct dec t.vertices
    pub joined : All (Joins dec t.vertices) t.edges

  joined_grows :
      (k : K) (v : V) (vs : List (K × V)) (es : List (K × K × E))
      → All (Joins dec vs) es
      → All (Joins dec (put_vertex dec k v vs)) es
  joined_grows k v vs [] h = tt
  joined_grows k v vs (e ∷ es) h = (
    (any_vertex_grows dec k e.0 v vs h.0.0, any_vertex_grows dec k e.1 v vs h.0.1),
    joined_grows k v vs es h.1,
  )

  -- Adding a vertex, or changing its value, keeps a topology valid: its vertices stay distinct, and
  -- each edge still joins two of them.
  pub add_vertex-IsValid :
      (t : Topology K V E) (k : K) (v : V) → IsValid t → IsValid (add_vertex dec t k v)
  unfolding add_vertex
  add_vertex-IsValid t k v h = record {
    distinct = put-Distinct dec k v t.vertices h.distinct;
    joined = joined_grows k v t.vertices t.edges h.joined;
  }

module _ {K V E : Type 0} (dec : Discrete K) (default_vertex : V) where
  ensure_vertex-IsValid :
      (t : Topology K V E) (k : K)
      → IsValid dec t
      → IsValid dec (ensure_vertex dec default_vertex t k)
  unfolding ensure_vertex
  ensure_vertex-IsValid t k h = elim (Bool-cases (any_vertex dec k t.vertices)) [
    | inl e ↦ rw e h
    | inr e ↦ rw e (add_vertex-IsValid dec t k default_vertex h)
  ]

  ensure_vertex_has :
      (t : Topology K V E) (k : K)
      → any_vertex dec k (ensure_vertex dec default_vertex t k).vertices ≡ true
  unfolding ensure_vertex add_vertex
  ensure_vertex_has t k = ground (arith, any_vertex-put dec k k default_vertex t.vertices)

  ensure_vertex_keeps :
      (t : Topology K V E) (k j : K)
      → any_vertex dec j t.vertices ≡ true
      → any_vertex dec j (ensure_vertex dec default_vertex t k).vertices ≡ true
  unfolding ensure_vertex add_vertex
  ensure_vertex_keeps t k j h = ground (arith, any_vertex-put dec k j default_vertex t.vertices)

  add_edge-IsValid :
      (t : Topology K V E) (e : K × K × E)
      → IsValid dec t
      → IsValid dec (add_edge dec default_vertex t e)
  unfolding add_edge
  add_edge-IsValid t (a, b, e) h =
      let once = ensure_vertex dec default_vertex t a in
      let twice = ensure_vertex dec default_vertex once b in
      let v = ensure_vertex-IsValid once b (ensure_vertex-IsValid t a h) in
      let last : All (Joins dec twice.vertices) ((a, b, e) ∷ []) =
        ((ensure_vertex_keeps once b a (ensure_vertex_has t a), ensure_vertex_has once b), tt) in
      record {
        distinct = v.distinct;
        joined = All-append (Joins dec twice.vertices) twice.edges ((a, b, e) ∷ []) v.joined last;
      }

  add_edges-IsValid :
      (t : Topology K V E) (es : List (K × K × E))
      → IsValid dec t
      → IsValid dec (add_edges dec default_vertex t es)
  unfolding add_edges
  add_edges-IsValid t [] h = h
  add_edges-IsValid t (e ∷ es) h =
      add_edges-IsValid (add_edge dec default_vertex t e) es (add_edge-IsValid t e h)

  -- The topology that `from_edges` builds has distinct vertices, and each of its edges joins two of
  -- them.
  pub from_edges-IsValid : (es : List (K × K × E)) → IsValid dec (from_edges dec default_vertex es)
  unfolding from_edges
  from_edges-IsValid es = add_edges-IsValid new es (record { distinct = tt; joined = tt })
