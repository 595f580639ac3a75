-- ===== src/LiveBgpParser/Chunks.antt =====
-- `process_buffer` (modules/live_bgp_parser.rs) as a whole: it returns, it handles each complete
-- line, and chunks that come later are as good as chunks that come at once.
use netfabric_bgp_router.Prelude.{
  ℕ, suc, ◌+◌, ◌≡◌, refl, sym, ap, ◌∙◌, none, some, List, [], ◌∷◌, ◌++◌, length, length-append,
  arith, inl, inr,
}
use mathlib.Core.List.{append_assoc, append-nil}
use mathlib.Core.Option.{some-injective, none-ne-some}
use netfabric_bgp_router.Platform.{Platform}
use netfabric_bgp_router.Advertisement.{RisLiveMessage}
use netfabric_bgp_router.LiveBgpParser.{
  Bytes, Source, LiveBgpParser, concat, accept, drain, process_buffer,
}
use netfabric_bgp_router.LiveBgpParser.Lines.{lines, lines-append}
use netfabric_bgp_router.LiveBgpParser.Framing.{
  consume, consume-with_buffer, consume_failed, consume_parsed, answer, read_lines-consume,
}

concat-append : (cs ds : List Bytes) → concat (cs ++ ds) ≡ concat cs ++ concat ds
concat-append [] ds = refl
concat-append (c ∷ cs) ds = rw (concat-append cs ds, append_assoc c (concat cs) (concat ds))

module _ (p : Platform) (src : Source p) where
  -- The parser once it has counted more bytes, and with a receiver that waits.
  abbrev pub count : ℕ → LiveBgpParser p src → LiveBgpParser p src
  count n l = record l {
    statistics = record (l.statistics) { bytes_received = l.statistics.bytes_received + n };
  }

  abbrev pub with_chunks : LiveBgpParser p src → List Bytes → LiveBgpParser p src
  with_chunks l chunks = record l { byte_stream_receiver = some chunks }

  drain_lem :
      (chunks : List Bytes) (l : LiveBgpParser p src)
      → drain p src chunks l ≡ record (count (length (concat chunks)) l) {
        bytes_buffer = l.bytes_buffer ++ concat chunks;
      }
  unfolding drain
  drain_lem [] l = ground (arith, append-nil l.bytes_buffer)
  drain_lem (c ∷ cs) l =
      let next = record (count (length c) l) { bytes_buffer = l.bytes_buffer ++ c } in
      ground (
        arith,
        drain_lem cs next,
        append_assoc l.bytes_buffer c (concat cs),
        length-append c (concat cs),
      )

  accept-count :
      (m : RisLiveMessage p) (n : ℕ) (l : LiveBgpParser p src)
      → accept p src m (count n l) ≡ count n (accept p src m l)
  unfolding accept
  accept-count m n l = ground arith

  accept-with_chunks :
      (m : RisLiveMessage p) (cs : List Bytes) (l : LiveBgpParser p src)
      → accept p src m (with_chunks l cs) ≡ with_chunks (accept p src m l) cs
  unfolding accept
  accept-with_chunks m cs l = ground arith

  consume-count :
      (ls : List Bytes) (rest : Bytes) (n : ℕ) (l : LiveBgpParser p src)
      → consume p src ls rest (count n l)
        ≡ ((consume p src ls rest l).0, count n (consume p src ls rest l).1)
  unfolding consume
  consume-count [] rest n l = refl
  consume-count (line ∷ more) rest n l = elim (answer p src line) [
    | inl (e, h) ↦ rw (
      consume_failed p src line more rest (count n l) e h,
      consume_failed p src line more rest l e h,
    )
    | inr (m, h) ↦ rw (
      consume_parsed p src line more rest (count n l) m h,
      consume_parsed p src line more rest l m h,
      accept-count m n l,
      consume-count more rest n (accept p src m l),
    )
  ]

  consume-with_chunks :
      (ls : List Bytes) (rest : Bytes) (cs : List Bytes) (l : LiveBgpParser p src)
      → consume p src ls rest (with_chunks l cs)
        ≡ ((consume p src ls rest l).0, with_chunks (consume p src ls rest l).1 cs)
  unfolding consume
  consume-with_chunks [] rest cs l = refl
  consume-with_chunks (line ∷ more) rest cs l = elim (answer p src line) [
    | inl (e, h) ↦ rw (
      consume_failed p src line more rest (with_chunks l cs) e h,
      consume_failed p src line more rest l e h,
    )
    | inr (m, h) ↦ rw (
      consume_parsed p src line more rest (with_chunks l cs) m h,
      consume_parsed p src line more rest l m h,
      accept-with_chunks m cs l,
      consume-with_chunks more rest cs (accept p src m l),
    )
  ]

  consume-append :
      (ls more : List Bytes) (open_line rest : Bytes) (l l' : LiveBgpParser p src)
      → consume p src ls open_line l ≡ (none, l')
      → consume p src (ls ++ more) rest l ≡ consume p src more rest l'
  unfolding consume
  consume-append [] more open_line rest l l' h =
      sym (consume-with_buffer p src more rest l open_line)
      ∙ ap (consume p src more rest) (ap (λ x. x.1) h)
  consume-append (line ∷ ls) more open_line rest l l' h = elim (answer p src line) [
    | inl (e, bad) ↦
        let wrong : some e ≡ none =
          ap (λ x. x.0) (sym (consume_failed p src line ls open_line l e bad) ∙ h) in
        absurd (none-ne-some e (sym wrong))
    | inr (m, good) ↦ rw (consume_parsed p src line (ls ++ more) rest l m good) (
        consume-append ls more open_line rest (accept p src m l) l'
          (sym (consume_parsed p src line ls open_line l m good) ∙ h))
  ]

  pub consume_ended :
      (ls : List Bytes) (rest : Bytes) (l l' : LiveBgpParser p src)
      → consume p src ls rest l ≡ (none, l')
      → l'.bytes_buffer ≡ rest
  unfolding consume
  consume_ended [] rest l l' h = ap (λ x. x.1.bytes_buffer) (sym h)
  consume_ended (line ∷ more) rest l l' h = elim (answer p src line) [
    | inl (e, bad) ↦
        let wrong : some e ≡ none =
          ap (λ x. x.0) (sym (consume_failed p src line more rest l e bad) ∙ h) in
        absurd (none-ne-some e (sym wrong))
    | inr (m, good) ↦
        consume_ended more rest (accept p src m l) l'
          (sym (consume_parsed p src line more rest l m good) ∙ h)
  ]

  -- The bytes of the buffer and of the channel.
  abbrev pub waiting : LiveBgpParser p src → List Bytes → Bytes
  waiting l chunks = l.bytes_buffer ++ concat chunks

  -- With a receiver, `process_buffer` returns. It empties the channel, counts its bytes, and deals
  -- with the complete lines of the buffer and the channel in order, up to the first that does not
  -- parse: each message of the stream becomes an advertisement and is counted, and the bytes after
  -- the last line that was read stay in the buffer.
  pub process_buffer-consume :
      (l : LiveBgpParser p src) (chunks : List Bytes)
      → l.byte_stream_receiver ≡ some chunks
      → process_buffer p src l
        ≡ some (
            consume p src
              (lines (waiting l chunks)).0
              (lines (waiting l chunks)).1
              (count (length (concat chunks)) (with_chunks l [])))
  unfolding process_buffer
  process_buffer-consume l chunks e =
      let ready = with_chunks l [] in
      let counted = count (length (concat chunks)) ready in
      let bytes = waiting l chunks in
      let filled = record counted { bytes_buffer = bytes } in
      let read = read_lines-consume p src (suc (length bytes)) filled (omega arith) in
      rw (e, drain_lem chunks ready, read)
        (ap some (consume-with_buffer p src (lines bytes).0 (lines bytes).1 counted bytes))

  -- Chunks that come in two parts, with a call of `process_buffer` after each, are dealt with as if
  -- they had come at once: unless a line of the first part does not parse, the error, the buffer,
  -- the advertisements and the statistics are the same in the end. So nothing depends on where the
  -- stream was cut, inside a line or not.
  pub process_buffer-split :
      (l l1 : LiveBgpParser p src) (first second : List Bytes)
      → process_buffer p src (with_chunks l first) ≡ some (none, l1)
      → process_buffer p src (with_chunks l (first ++ second))
        ≡ process_buffer p src (with_chunks l1 second)
  process_buffer-split l l1 first second h =
      let bytes = waiting l first in
      let ls = (lines bytes).0 in
      let open_line = (lines bytes).1 in
      let later = lines (open_line ++ concat second) in
      let n = length (concat first) in
      let m = length (concat second) in
      let empty = with_chunks l [] in
      let ran : consume p src ls open_line (count n empty) ≡ (none, l1) =
        some-injective _ _ (sym (process_buffer-consume (with_chunks l first) first refl) ∙ h) in
      let ended = consume_ended ls open_line (count n empty) l1 ran in
      let emptied : with_chunks l1 [] ≡ l1 =
        ap (λ x. with_chunks x.1 []) (sym ran)
        ∙ ap (λ x. x.1) (sym (consume-with_chunks ls open_line [] (count n empty)))
        ∙ ap (λ x. x.1) ran in
      let counted : consume p src ls open_line (count m (count n empty)) ≡ (none, count m l1) =
        consume-count ls open_line m (count n empty) ∙ ap (λ x. (x.0, count m x.1)) ran in
      let once = process_buffer-consume (with_chunks l (first ++ second)) (first ++ second) refl in
      let twice = process_buffer-consume (with_chunks l1 second) second refl in
      let whole : lines (waiting l (first ++ second)) ≡ (ls ++ later.0, later.1) =
        rw
          (
            concat-append first second,
            sym (append_assoc l.bytes_buffer (concat first) (concat second)),
          )
          (lines-append bytes (concat second)) in
      let total : count (length (concat (first ++ second))) empty ≡ count m (count n empty) =
        ground (arith, concat-append first second, length-append (concat first) (concat second)) in
      let appended =
        consume-append ls later.0 open_line later.1 (count m (count n empty)) (count m l1)
          counted in
      once
      ∙ ap some (
          ap (λ x. consume p src x.0 x.1 (count (length (concat (first ++ second))) empty)) whole
          ∙ ap (consume p src (ls ++ later.0) later.1) total
          ∙ appended
          ∙ ap (λ x. consume p src later.0 later.1 (count m x)) (sym emptied)
          ∙ ap
              (λ b.
                consume p src (lines (b ++ concat second)).0 (lines (b ++ concat second)).1
                  (count m (with_chunks l1 [])))
              (sym ended))
      ∙ sym twice
