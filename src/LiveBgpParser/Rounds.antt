-- ===== src/LiveBgpParser/Rounds.antt =====
-- `work` (modules/live_bgp_parser.rs) round by round: a round that goes well, one that meets a line
-- that does not parse, the round after it, and a stream that has ended.
use netfabric_bgp_router.Prelude.{
  ◌≡◌, refl, sym, subst, ap, ◌∙◌, true, false, Option, none, some, List, [], length, arith, inl,
  inr, ◌⊎◌, Option-cases, Bool-cases,
}
use mathlib.Core.List.{append-nil}
use netfabric_bgp_router.Platform.{Platform}
use netfabric_bgp_router.Channel.{Store}
use netfabric_bgp_router.StateMachine.{StateTransition, continue, stop}
use netfabric_bgp_router.LiveBgpParser.{
  Bytes, Source, LiveBgpParser, BgpParserError, stream_error, concat, process_buffer, work,
  process_and_send, give_up, needs_start, send_each, start_stream, stop_stream, stop_on_error,
  restart_on_error,
}
use netfabric_bgp_router.LiveBgpParser.Lines.{lines, lines_open}
use netfabric_bgp_router.LiveBgpParser.Framing.{consume}
use netfabric_bgp_router.LiveBgpParser.Chunks.{
  with_chunks, waiting, count, consume_ended, process_buffer-consume,
}

module _ (p : Platform) (src : Source p) where
  -- No complete line waits in the buffer.
  unfoldable pub HasOpenLine : LiveBgpParser p src → Type 0
  HasOpenLine l = lines l.bytes_buffer ≡ ([], l.bytes_buffer)

  -- A round that runs on a stream and meets a bad line.
  round_failed :
      (now : src.Instant) (l l' : LiveBgpParser p src) (store : Store p) (e : BgpParserError)
      → needs_start p src l ≡ false
      → process_buffer p src l ≡ some (some e, l')
      → work p src now l store ≡ some (give_up p src now (src.process_text e) l', store)
  unfolding work process_and_send
  round_failed now l l' store e runs h = ground arith

  -- A round that starts the stream first: an empty channel has taken the place of the old one.
  round_started :
      (now : src.Instant) (l : LiveBgpParser p src) (store : Store p)
      → needs_start p src l ≡ true
      → HasOpenLine l
      → let sent = send_each p src l.bgp_sessions store l.advertisements in
        work p src now l store
        ≡ some (
          (
            continue,
            record l {
              stream_handle = some false;
              byte_stream_receiver = some [];
              bgp_sessions = sent.0;
              advertisements = [];
            },
          ),
          sent.1,
        )
  unfolding work process_and_send start_stream HasOpenLine consume
  round_started now l store starts opened =
      let started = record l { stream_handle = some false; byte_stream_receiver = some [] } in
      let read = process_buffer-consume p src started [] refl in
      let bytes : waiting p src started [] ≡ l.bytes_buffer = append-nil l.bytes_buffer in
      let idle : process_buffer p src started ≡ some (none, started) =
        read ∙ rw (bytes, opened) (ground arith) in
      ground arith

  -- What `process_buffer` answers: nothing is wrong, and then no complete line is left, or an error.
  process_buffer_cases :
      (l : LiveBgpParser p src)
      → ((l' : LiveBgpParser p src) × (process_buffer p src l ≡ some (none, l')) × HasOpenLine l')
        ⊎ ((e : BgpParserError) × (l' : LiveBgpParser p src) × (process_buffer p src l
              ≡ some (some e, l')))
  unfolding process_buffer HasOpenLine
  process_buffer_cases l = elim (Option-cases l.byte_stream_receiver) [
    | inl e ↦ inr (stream_error "No receiver found", l, rw (e) refl)
    | inr (chunks, e) ↦
        let n = length (concat chunks) in
        let split = lines (waiting p src l chunks) in
        let counted = count p src n (with_chunks p src l []) in
        of split.0 split.1 counted (process_buffer-consume p src l chunks e)
          (lines_open (waiting p src l chunks)) (consume p src split.0 split.1 counted) refl
  ]
    where
      of :
          (ls : List Bytes) (rest : Bytes) (counted : LiveBgpParser p src)
          → process_buffer p src l ≡ some (consume p src ls rest counted)
          → lines rest ≡ ([], rest)
          → (x : Option BgpParserError × LiveBgpParser p src) → consume p src ls rest counted ≡ x
          → ((l' : LiveBgpParser p src) × (process_buffer p src l ≡ some (none, l'))
              × HasOpenLine l')
            ⊎ ((e : BgpParserError) × (l' : LiveBgpParser p src) × (process_buffer p src l
                  ≡ some (some e, l')))
      of ls rest counted h opened (none, l') ran =
          let ended = consume_ended p src ls rest counted l' ran in
          inl (l', h ∙ ap some ran, subst (λ b. lines b ≡ ([], b)) (sym ended) opened)
      of ls rest counted h opened (some e, l') ran = inr (e, l', h ∙ ap some ran)

  -- A round, once the stream runs: it returns, and no complete line waits after it.
  process_and_send_total :
      (now : src.Instant) (l : LiveBgpParser p src) (store : Store p)
      → (t : StateTransition (LiveBgpParser p src)) × (l' : LiveBgpParser p src) × (store' : Store
          p)
        × (process_and_send p src now l store ≡ some ((t, l'), store'))
        × HasOpenLine l'
  unfolding process_and_send HasOpenLine give_up stop_stream lines
  process_and_send_total now l store = elim (process_buffer_cases l) [
    | inl (l', h, opened) ↦
        let sent = send_each p src l'.bgp_sessions store l'.advertisements in
        let after = record l' { bgp_sessions = sent.0; advertisements = [] } in
        (continue, after, sent.1, rw (h, process_and_send) refl, opened)
    | inr (e, l', h) ↦
        let gone = give_up p src now (src.process_text e) l' in
        (gone.0, gone.1, store, rw (h, process_and_send) refl, refl)
  ]

  work_starts :
      (now : src.Instant) (l : LiveBgpParser p src) (store : Store p)
      → needs_start p src l ≡ true
      → let started = record l { stream_handle = some false; byte_stream_receiver = some [] } in
        work p src now l store ≡ process_and_send p src now started store
  unfolding work start_stream
  work_starts now l store h = ground arith

  work_runs :
      (now : src.Instant) (l : LiveBgpParser p src) (store : Store p)
      → needs_start p src l ≡ false
      → work p src now l store ≡ process_and_send p src now l store
  unfolding work
  work_runs now l store h = ground arith

  -- A round of the parser returns, whatever its state, and no complete line waits after it.
  pub work_total :
      (now : src.Instant) (l : LiveBgpParser p src) (store : Store p)
      → (t : StateTransition (LiveBgpParser p src)) × (l' : LiveBgpParser p src) × (store' : Store
          p)
        × (work p src now l store ≡ some ((t, l'), store'))
        × HasOpenLine l'
  unfolding work start_stream
  work_total now l store = elim (Bool-cases (needs_start p src l)) [
    | inl starts ↦
        let started = record l { stream_handle = some false; byte_stream_receiver = some [] } in
        let (t, l', store', h, opened) = process_and_send_total now started store in
        (t, l', store', work_starts now l store starts ∙ h, opened)
    | inr runs ↦
        let (t, l', store', h, opened) = process_and_send_total now l store in
        (t, l', store', work_runs now l store runs ∙ h, opened)
  ]

  -- A line that does not parse, or a missing receiver: the round sends nothing, the stream is
  -- stopped and the policy decides. If the machine goes on, the next round starts a new stream and
  -- sends to every session what was parsed before the error, so those advertisements are not lost.
  pub work_failed :
      (now later : src.Instant) (l l' : LiveBgpParser p src) (store : Store p) (e : BgpParserError)
      → l.stream_handle ≡ some false
      → process_buffer p src l ≡ some (some e, l')
      → let stopped = (give_up p src now (src.process_text e) l').1 in
        let sent = send_each p src l'.bgp_sessions store l'.advertisements in
        (work p src now l store
          ≡ some (
            (
              elim l'.restart_policy [ stop_on_error ↦ stop | restart_on_error ↦ continue ],
              stopped,
            ),
            store,
          ))
        × (work p src later stopped store
            ≡ some (
              (
                continue,
                record stopped {
                  stream_handle = some false;
                  byte_stream_receiver = some [];
                  bgp_sessions = sent.0;
                  advertisements = [];
                },
              ),
              sent.1,
            ))
  unfolding give_up stop_stream needs_start HasOpenLine lines
  work_failed now later l l' store e running h =
      let gone = give_up p src now (src.process_text e) l' in
      (
        round_failed now l l' store e (rw running refl) h,
        round_started later gone.1 store refl refl,
      )

  -- A stream whose task has ended is started again, and the chunks that still wait in its channel
  -- are lost: the round reads none of their bytes and sends what was parsed before. The bytes of the
  -- line that was open stay in the buffer, before those of the new stream.
  pub work_restarted :
      (now : src.Instant) (l : LiveBgpParser p src) (store : Store p) (chunks : List Bytes)
      → l.stream_handle ≡ some true
      → HasOpenLine l
      → let sent = send_each p src l.bgp_sessions store l.advertisements in
        work p src now (with_chunks p src l chunks) store
        ≡ some (
          (
            continue,
            record l {
              stream_handle = some false;
              byte_stream_receiver = some [];
              bgp_sessions = sent.0;
              advertisements = [];
            },
          ),
          sent.1,
        )
  unfolding needs_start HasOpenLine
  work_restarted now l store chunks ended opened =
      round_started now (with_chunks p src l chunks) store (rw ended refl) opened
