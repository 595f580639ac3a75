-- ===== src/LiveBgpParser.antt =====
-- modules/live_bgp_parser.rs: the parser of the RIS live stream, as the state of a machine. The web
-- request runs in a task of its own; the model has the channel that the task fills.
pub mod Lines
pub mod Framing
pub mod Chunks
pub mod Rounds
pub mod Connect
use netfabric_bgp_router.Prelude.{
  ℕ, zero, suc, ◌+◌, Bool, true, false, String, String-discrete, Option, none, some, List, [], ◌∷◌,
  ◌++◌, length, ite, ◌==◌, if◌then◌else◌, ◌⊎◌, inl, inr,
}
use netfabric_bgp_router.Platform.{Platform}
use netfabric_bgp_router.Advertisement.{Advertisement, RisLiveMessage, from_ris}
use netfabric_bgp_router.Channel.{Store}
use netfabric_bgp_router.Session
use netfabric_bgp_router.Session.{BgpSession}
use netfabric_bgp_router.StateMachine.{StateTransition, continue, stop}

abbrev pub Bytes : Type 0
Bytes = List ℕ

-- `RestartPolicy`; the default is to restart.
pub data RestartPolicy : Type 0 where
  stop_on_error restart_on_error : RestartPolicy

-- `BgpParserError`
pub data BgpParserError : Type 0 where
  stream_error parse_error send_error interface_error : String → BgpParserError
  stream_ended : BgpParserError

-- What the parser takes from elsewhere: the time, `serde_json::from_slice`, and the texts in which
-- it keeps an error of `start_stream` and of `process_buffer`.
pub record Source (p : Platform) : Type 1 where
  pub Instant : Type 0
  pub from_slice : Bytes → BgpParserError ⊎ RisLiveMessage p
  pub start_text : BgpParserError → String
  pub process_text : BgpParserError → String

-- The bytes up to the first newline, with it, and the bytes after it: `position` and `split_to`.
unfoldable pub split_line : Bytes → Option (Bytes × Bytes)
split_line [] = none
split_line (b ∷ bs) =
    let later = split_line bs in
    if b == b'\n'
    then some (b ∷ [], bs)
    else elim later [ none ↦ none | some (line, rest) ↦ some (b ∷ line, rest) ]

-- The chunks of the channel one after another, and their bytes in all.
abbrev pub concat : List Bytes → Bytes
concat [] = []
concat (c ∷ cs) = c ++ concat cs

module _ (p : Platform) (src : Source p) where
  -- `LiveBgpParserStatistics`. The `u64` counters count single bytes and messages.
  pub record Statistics : Type 0 where
    pub messages_processed : ℕ
    pub bytes_received : ℕ
    pub errors_encountered : ℕ
    pub last_error : Option String
    pub start_time : src.Instant
    pub end_time : src.Instant
    pub last_error_time : Option src.Instant

  -- `LiveBgpParser`. A stream's handle says whether its task is finished, and a receiver holds the
  -- chunks that wait in its channel.
  pub record LiveBgpParser : Type 0 where
    pub stream_handle : Option Bool
    pub byte_stream_receiver : Option (List Bytes)
    pub bytes_buffer : Bytes
    pub advertisements : List (Advertisement p)
    pub restart_policy : RestartPolicy
    pub statistics : Statistics
    pub bgp_sessions : List (BgpSession p)

  -- `LiveBgpParserStatistics::default` and `LiveBgpParser::new`, at the given time.
  abbrev pub default_statistics : src.Instant → Statistics
  default_statistics now = record {
    messages_processed = 0;
    bytes_received = 0;
    errors_encountered = 0;
    last_error = none;
    start_time = now;
    end_time = now;
    last_error_time = none;
  }

  abbrev pub new : src.Instant → LiveBgpParser
  new now = record {
    stream_handle = none;
    byte_stream_receiver = none;
    bytes_buffer = [];
    advertisements = [];
    restart_policy = restart_on_error;
    statistics = default_statistics now;
    bgp_sessions = [];
  }

  -- `LiveBgpParser::add_bgp_session` and `with_bgp_sessions`
  abbrev pub add_bgp_session : LiveBgpParser → BgpSession p → LiveBgpParser
  add_bgp_session l s = record l { bgp_sessions = l.bgp_sessions ++ (s ∷ []) }

  -- `LiveBgpParser::start_stream`, which does not fail: a new channel and a new task.
  unfoldable pub start_stream : LiveBgpParser → Option BgpParserError × LiveBgpParser
  start_stream l = (none, record l { stream_handle = some false; byte_stream_receiver = some [] })

  -- `LiveBgpParser::stop_stream`
  unfoldable pub stop_stream : LiveBgpParser → LiveBgpParser
  stop_stream l = record l { stream_handle = none; byte_stream_receiver = none; bytes_buffer = [] }

  -- A message of the stream: an advertisement, or one that is passed over.
  unfoldable pub accept : RisLiveMessage p → LiveBgpParser → LiveBgpParser
  accept m l =
      ite (String-discrete m.msg_type "ris_message")
        (record l {
          advertisements = l.advertisements ++ (from_ris p m.content ∷ []);
          statistics = record (l.statistics) {
            messages_processed = l.statistics.messages_processed + 1;
          };
        })
        l

  -- The loop of `process_buffer` over the lines of the buffer. A line leaves the buffer before it is
  -- parsed. Nothing is returned if the fuel is spent.
  unfoldable pub read_lines : ℕ → LiveBgpParser → Option (Option BgpParserError × LiveBgpParser)
  read_lines zero l = none
  read_lines (suc fuel) l = elim (split_line l.bytes_buffer) [
    | none ↦ some (none, l)
    | some (line, rest) ↦ elim (src.from_slice line) [
      | inl e ↦ some (some e, record l { bytes_buffer = rest })
      | inr m ↦ read_lines fuel (accept m (record l { bytes_buffer = rest }))
    ]
  ]

  -- The loop of `process_buffer` over the waiting chunks.
  unfoldable pub drain : List Bytes → LiveBgpParser → LiveBgpParser
  drain [] l = l
  drain (c ∷ cs) l = drain cs (record l {
    bytes_buffer = l.bytes_buffer ++ c;
    statistics = record (l.statistics) { bytes_received = l.statistics.bytes_received + length c };
  })

  -- `LiveBgpParser::process_buffer`, with fuel for one round for each byte and a last one.
  unfoldable pub process_buffer : LiveBgpParser → Option (Option BgpParserError × LiveBgpParser)
  process_buffer l = elim l.byte_stream_receiver [
    | none ↦ some (some (stream_error "No receiver found"), l)
    | some chunks ↦
        let filled = drain chunks (record l { byte_stream_receiver = some [] }) in
        read_lines (suc (length filled.bytes_buffer)) filled
  ]

  -- What `work` does on an error: it is counted and kept, and the stream is stopped.
  unfoldable pub give_up :
      src.Instant → String → LiveBgpParser → StateTransition LiveBgpParser × LiveBgpParser
  give_up now text l = (
    elim l.restart_policy [ stop_on_error ↦ stop | restart_on_error ↦ continue ],
    stop_stream (record l {
      statistics = record (l.statistics) {
        errors_encountered = l.statistics.errors_encountered + 1;
        last_error = some text;
        last_error_time = some now;
      };
    }),
  )

  -- The sessions of `work` in turn; an error is only logged.
  unfoldable pub send_each :
      List (BgpSession p) → Store p → List (Advertisement p) → List (BgpSession p) × Store p
  send_each [] store ads = ([], store)
  send_each (s ∷ rest) store ads =
      let (_, s', store') = Session.send p s store ads in
      let (sessions, store'') = send_each rest store' ads in (s' ∷ sessions, store'')

  -- No stream, or one whose task is finished.
  unfoldable pub needs_start : LiveBgpParser → Bool
  needs_start l = elim l.stream_handle [ none ↦ true | some finished ↦ finished ]

  -- `work` once the stream runs.
  unfoldable pub process_and_send :
      src.Instant
      → LiveBgpParser
      → Store p
      → Option ((StateTransition LiveBgpParser × LiveBgpParser) × Store p)
  process_and_send now l store = elim (process_buffer l) [
    | none ↦ none
    | some (error, l') ↦ elim error [
      | some e ↦ some (give_up now (src.process_text e) l', store)
      | none ↦
          let (sessions, store') = send_each l'.bgp_sessions store l'.advertisements in
          some ((continue, record l' { bgp_sessions = sessions; advertisements = [] }), store')
    ]
  ]

  -- `State::work` of the parser.
  unfoldable pub work :
      src.Instant
      → LiveBgpParser
      → Store p
      → Option ((StateTransition LiveBgpParser × LiveBgpParser) × Store p)
  work now l store =
      let (error, started) = if needs_start l then start_stream l else (none, l) in
      elim error [
        | some e ↦ some (give_up now (src.start_text e) started, store)
        | none ↦ process_and_send now started store
      ]

  -- `State::cleanup` of the parser.
  unfoldable pub cleanup : src.Instant → LiveBgpParser → LiveBgpParser
  cleanup now l = stop_stream (record l { statistics = record (l.statistics) { end_time = now } })

  -- `Clone for LiveBgpParser`: neither the stream nor the sessions are copied.
  unfoldable pub clone : LiveBgpParser → LiveBgpParser
  clone l = record l { stream_handle = none; byte_stream_receiver = none; bgp_sessions = [] }
