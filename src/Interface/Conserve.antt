-- ===== src/Interface/Conserve.antt =====
-- What becomes of the messages that `Interface::receive` (components/interface.rs) takes out of a
-- channel.
use netfabric_bgp_router.Prelude.{
  ℕ, ◌≤◌, ◌<◌, ◌≡◌, ◌⊎◌, inl, inr, refl, sym, ap, ◌∙◌, Bool, true, false, Option, none, some, List,
  [], ◌∷◌, ◌++◌, length, length-append, arith, Bool-cases,
}
use mathlib.Core.List.{append_assoc, append-nil}
use netfabric_bgp_router.Platform.{Platform}
use netfabric_bgp_router.Advertisement.{Advertisement}
use netfabric_bgp_router.Filters.{Filter}
use netfabric_bgp_router.Channel.{Store, Message, queue_of, set_queue}
use netfabric_bgp_router.Interface.{
  Interface, InterfaceError, Buffer, push, receive_loop, receive, accepted,
}
use netfabric_bgp_router.Interface.Bounds.{receive_open}
use netfabric_bgp_router.Interface.Receive.{
  messages, receive_loop_stored, receive_loop_full, receive_loop_skipped, lt_or_le,
}

module _ (p : Platform) where
  -- The advertisements of the channel are those that were taken out and those that are left. Of the
  -- ones taken out that the filter lets through, the buffer has all, and everything was taken out;
  -- or it has all but the last one, and is full. Nothing is stored beyond the capacity.
  abbrev pub Accounts :
      Filter (Advertisement p)
      → List (Advertisement p)
      → Buffer (Advertisement p)
      → Option InterfaceError × Buffer (Advertisement p) × List (Message p)
      → Type 0
  Accounts f ads before (error, after, left) =
      (taken : List (Advertisement p)) × (stored : List (Advertisement p)) × (rest : List
        (Advertisement p))
      × (error ≡ none)
      × (ads ≡ taken ++ rest)
      × (left ≡ messages p rest)
      × (after ≡ record before { items = before.items ++ stored })
      × ((stored ≡ []) ⊎ (length after.items ≤ after.capacity))
      × (((accepted p f taken ≡ stored) × (rest ≡ []))
          ⊎ ((lost : Advertisement p) × (accepted p f taken ≡ stored ++ (lost ∷ []))
              × (after.capacity ≤ length after.items)))

  accepted-true :
      (f : Filter (Advertisement p)) (ad : Advertisement p) (ads : List (Advertisement p))
      → (f ad).0 ≡ true
      → accepted p f (ad ∷ ads) ≡ (f ad).1 ∷ accepted p f ads
  accepted-true f ad ads e = ground arith

  accepted-false :
      (f : Filter (Advertisement p)) (ad : Advertisement p) (ads : List (Advertisement p))
      → (f ad).0 ≡ false
      → accepted p f (ad ∷ ads) ≡ accepted p f ads
  accepted-false f ad ads e = ground arith

  -- A buffer that had room before a push does not overflow by it.
  fits_now :
      (b : Buffer (Advertisement p)) (ad : Advertisement p) (stored : List (Advertisement p))
      {after : Buffer (Advertisement p)}
      → length b.items < b.capacity
      → after ≡ record b { items = (push b ad).items ++ stored }
      → (stored ≡ []) ⊎ (length after.items ≤ after.capacity)
      → length after.items ≤ after.capacity
  fits_now b ad stored h e (inr fits) = fits
  fits_now b ad stored {after} h e (inl nothing) =
      let items : after.items ≡ (push b ad).items =
        ap (λ x. x.items) e
        ∙ ap (λ x. (push b ad).items ++ x) nothing
        ∙ append-nil (push b ad).items in
      omega (arith, ap length items, ap (λ x. x.capacity) e, length-append b.items (ad ∷ []), h)

  receive_loop-Accounts :
      (f : Filter (Advertisement p)) (ads : List (Advertisement p)) (b : Buffer (Advertisement p))
      → Accounts f ads b (receive_loop p f (messages p ads) b)
  unfolding receive_loop
  receive_loop-Accounts f [] b = (
    [],
    [],
    [],
    refl,
    refl,
    refl,
    ap (λ x. record b { items = x }) (sym (append-nil b.items)),
    inl refl,
    inl (refl, refl),
  )
  receive_loop-Accounts f (ad ∷ ads) b = elim (Bool-cases (f ad).0) [
    | inl e ↦ elim (lt_or_le p (length b.items) b.capacity) [
      | inl h ↦
          let (taken, stored, rest, none', split, left, after, fits, fate) =
            receive_loop-Accounts f ads (push b (f ad).1) in
          let ahead = accepted-true f ad taken e in
          rw (receive_loop_stored p f ad (messages p ads) b e h) (
            ad ∷ taken,
            (f ad).1 ∷ stored,
            rest,
            none',
            ap (◌∷◌ ad) split,
            left,
            after ∙ ap (λ x. record b { items = x }) (append_assoc b.items ((f ad).1 ∷ []) stored),
            inr (fits_now b (f ad).1 stored h after fits),
            elim fate [
              | inl (all, done) ↦ inl (ahead ∙ ap (◌∷◌ (f ad).1) all, done)
              | inr (lost, but, full) ↦ inr (lost, ahead ∙ ap (◌∷◌ (f ad).1) but, full)
            ],
          )
      | inr h ↦ rw (receive_loop_full p f ad (messages p ads) b e h) (
        ad ∷ [],
        [],
        ads,
        refl,
        refl,
        refl,
        ap (λ x. record b { items = x }) (sym (append-nil b.items)),
        inl refl,
        inr ((f ad).1, accepted-true f ad [] e, h),
      )
    ]
    | inr e ↦
        let (taken, stored, rest, none', split, left, after, fits, fate) =
          receive_loop-Accounts f ads b in
        let ahead = accepted-false f ad taken e in
        rw (receive_loop_skipped p f ad (messages p ads) b e) (
          ad ∷ taken,
          stored,
          rest,
          none',
          ap (◌∷◌ ad) split,
          left,
          after,
          fits,
          elim fate [
            | inl (all, done) ↦ inl (ahead ∙ all, done)
            | inr (lost, but, full) ↦ inr (lost, ahead ∙ but, full)
          ],
        )
  ]

  -- `receive` on an interface whose input channel holds advertisements reports no error and splits
  -- them into those that it takes out and those that it leaves, in order. Either it takes out all of
  -- them and appends to the buffer exactly those that the filter lets through; or the buffer is full
  -- in the end, and has all of those that were taken out and let through but the last one, which is
  -- in the channel no more: exactly one advertisement is lost. Nothing is stored beyond the
  -- capacity.
  pub receive-Accounts :
      (i : Interface p) (store : Store p) (locked : ℕ → Bool) (ref : ℕ)
      (ads : List (Advertisement p))
      → i.in_channel ≡ some ref
      → locked ref ≡ true
      → queue_of p store ref ≡ messages p ads
      → (error : Option InterfaceError) × (after : Buffer (Advertisement p)) × (left : List
          (Message p))
        × (receive p i store locked
            ≡ (error, record i { incoming = after }, set_queue p store ref left))
        × Accounts i.in_filter ads i.incoming (error, after, left)
  receive-Accounts i store locked ref ads e l q =
      let r = receive_loop p i.in_filter (messages p ads) i.incoming in
      (
        r.0,
        r.1,
        r.2,
        rw (receive_open p i store locked ref e l, q) refl,
        receive_loop-Accounts i.in_filter ads i.incoming,
      )
