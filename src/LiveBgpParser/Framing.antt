-- ===== src/LiveBgpParser/Framing.antt =====
-- `process_buffer` (modules/live_bgp_parser.rs) handles the complete lines in order, however the
-- bytes were cut into chunks.
use netfabric_bgp_router.Prelude.{
  ℕ, zero, suc, ◌<◌, ◌≡◌, refl, ap, Option, none, some, List, [], ◌∷◌, ◌++◌, length, arith,
  Option-cases, inl, inr, ◌⊎◌,
}
use netfabric_bgp_router.Platform.{Platform}
use netfabric_bgp_router.Advertisement.{RisLiveMessage}
use netfabric_bgp_router.LiveBgpParser.{
  Bytes, Source, LiveBgpParser, BgpParserError, split_line, concat, accept, read_lines,
}
use netfabric_bgp_router.LiveBgpParser.Lines.{
  lines, lines-none, lines-some, split_line-shorter, concat-lines,
}

module _ (p : Platform) (src : Source p) where
  abbrev pub with_buffer : LiveBgpParser p src → Bytes → LiveBgpParser p src
  with_buffer l bs = record l { bytes_buffer = bs }

  -- The messages of the lines in turn, up to the first that does not parse; what is left of the
  -- bytes stays in the buffer.
  unfoldable pub consume :
      List Bytes → Bytes → LiveBgpParser p src → Option BgpParserError × LiveBgpParser p src
  consume [] rest l = (none, with_buffer l rest)
  consume (line ∷ more) rest l = elim (src.from_slice line) [
    | inl e ↦ (some e, with_buffer l (concat more ++ rest))
    | inr m ↦ consume more rest (accept p src m l)
  ]

  module _ (line : Bytes) where
    -- What the parser of one line answers.
    pub answer :
        ((e : BgpParserError) × (src.from_slice line ≡ inl e))
        ⊎ ((m : RisLiveMessage p) × (src.from_slice line ≡ inr m))
    answer = of (src.from_slice line) refl
      where
        of :
            (x : BgpParserError ⊎ RisLiveMessage p)
            → src.from_slice line ≡ x
            → ((e : BgpParserError) × (src.from_slice line ≡ inl e))
              ⊎ ((m : RisLiveMessage p) × (src.from_slice line ≡ inr m))
        of (inl e) h = inl (e, h)
        of (inr m) h = inr (m, h)

    module _ (more : List Bytes) (rest : Bytes) (l : LiveBgpParser p src) where
      pub consume_failed :
          (e : BgpParserError)
          → src.from_slice line ≡ inl e
          → consume (line ∷ more) rest l ≡ (some e, with_buffer l (concat more ++ rest))
      unfolding consume
      consume_failed e h = rw (h, consume)

      pub consume_parsed :
          (m : RisLiveMessage p)
          → src.from_slice line ≡ inr m
          → consume (line ∷ more) rest l ≡ consume more rest (accept p src m l)
      unfolding consume
      consume_parsed m h = rw (h, consume)

    module _ (rest : Bytes) (fuel : ℕ) (l : LiveBgpParser p src)
        (split : split_line l.bytes_buffer ≡ some (line, rest)) where
      read_failed :
          (e : BgpParserError)
          → src.from_slice line ≡ inl e
          → read_lines p src (suc fuel) l ≡ some (some e, with_buffer l rest)
      unfolding read_lines
      read_failed e h = ground arith

      read_parsed :
          (m : RisLiveMessage p)
          → src.from_slice line ≡ inr m
          → read_lines p src (suc fuel) l
            ≡ read_lines p src fuel (accept p src m (with_buffer l rest))
      unfolding read_lines
      read_parsed m h = ground arith

  read_ended :
      (fuel : ℕ) (l : LiveBgpParser p src)
      → split_line l.bytes_buffer ≡ none
      → read_lines p src (suc fuel) l ≡ some (none, l)
  unfolding read_lines
  read_ended fuel l h = ground arith

  accept-with_buffer :
      (m : RisLiveMessage p) (l : LiveBgpParser p src) (bs : Bytes)
      → accept p src m (with_buffer l bs) ≡ with_buffer (accept p src m l) bs
  unfolding accept
  accept-with_buffer m l bs = ground arith

  accept_buffer :
      (m : RisLiveMessage p) (l : LiveBgpParser p src)
      → (accept p src m l).bytes_buffer ≡ l.bytes_buffer
  unfolding accept
  accept_buffer m l = ground arith

  pub consume-with_buffer :
      (ls : List Bytes) (rest : Bytes) (l : LiveBgpParser p src) (bs : Bytes)
      → consume ls rest (with_buffer l bs) ≡ consume ls rest l
  unfolding consume
  consume-with_buffer [] rest l bs = refl
  consume-with_buffer (line ∷ more) rest l bs = elim (answer line) [
    | inl (e, h) ↦
        rw (
          consume_failed line more rest (with_buffer l bs) e h,
          consume_failed line more rest l e h,
        )
    | inr (m, h) ↦ rw (
      consume_parsed line more rest (with_buffer l bs) m h,
      consume_parsed line more rest l m h,
      accept-with_buffer m l bs,
      consume-with_buffer more rest (accept p src m l) bs,
    )
  ]

  -- With fuel for each byte the loop over the lines does what `consume` says of them.
  pub read_lines-consume :
      (fuel : ℕ) (l : LiveBgpParser p src)
      → length l.bytes_buffer < fuel
      → read_lines p src fuel l ≡ some (consume (lines l.bytes_buffer).0 (lines l.bytes_buffer).1 l)
  unfolding consume
  read_lines-consume zero l h = absurd (omega arith)
  read_lines-consume (suc fuel) l h = elim (Option-cases (split_line l.bytes_buffer)) [
    | inl e ↦ rw (read_ended fuel l e, lines-none l.bytes_buffer e)
    | inr ((line, rest), e) ↦ elim (answer line) [
      | inl (err, bad) ↦ rw (
        read_failed line rest fuel l e err bad,
        lines-some l.bytes_buffer line rest e,
        consume_failed line (lines rest).0 (lines rest).1 l err bad,
        concat-lines rest,
      )
      | inr (m, good) ↦
          let next = accept p src m (with_buffer l rest) in
          let left : next.bytes_buffer ≡ rest = accept_buffer m (with_buffer l rest) in
          let shorter = split_line-shorter l.bytes_buffer line rest e in
          let ih = read_lines-consume fuel next (omega (arith, ap length left, shorter)) in
          rw (
            read_parsed line rest fuel l e m good,
            ih,
            left,
            lines-some l.bytes_buffer line rest e,
            consume_parsed line (lines rest).0 (lines rest).1 l m good,
            accept-with_buffer m l rest,
            consume-with_buffer (lines rest).0 (lines rest).1 (accept p src m l) rest,
          )
    ]
  ]
