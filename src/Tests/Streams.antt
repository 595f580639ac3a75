-- ===== src/Tests/Streams.antt =====
-- The theorems on the live parser and on the work of a router, applied on the sample platform.
use netfabric_bgp_router.Prelude.{
  ℕ, ◌≡◌, refl, true, false, String-discrete, none, some, List, [], ◌∷◌, ◌++◌, ◌==◌, ◌⊎◌, inl, inr,
  if◌then◌else◌,
}
use netfabric_bgp_router.Advertisement.{RisLiveMessage, RisLiveData, update, from_ris}
use netfabric_bgp_router.Channel.{Store}
use netfabric_bgp_router.StateMachine.{StateTransition, continue}
use netfabric_bgp_router.LiveBgpParser as Parser
use netfabric_bgp_router.LiveBgpParser.{
  Bytes, Source, LiveBgpParser, Statistics, BgpParserError, parse_error, stop_on_error,
  restart_on_error, new, process_buffer, read_lines, split_line, drain, accept, give_up,
}
use netfabric_bgp_router.LiveBgpParser.Lines.{lines}
use netfabric_bgp_router.LiveBgpParser.Chunks.{with_chunks, process_buffer-split}
use netfabric_bgp_router.LiveBgpParser.Rounds.{HasOpenLine, work_total, work_failed, work_restarted}
use netfabric_bgp_router.Tests.Sample.{sample}

-- A message of the stream, and a source that reads a line that begins with `m` as that message.
abbrev content : RisLiveData sample
content = record {
  timestamp = 0;
  peer = "0.0.0.1";
  peer_asn = "2";
  id = "id";
  raw = none;
  host = "h";
  msg_type = update;
  path = none;
  community = none;
  origin = none;
  med = none;
  aggregator = none;
  announcements = none;
  withdrawals = some ("0.0.0.7/32" ∷ []);
  direction = none;
  version = none;
  asn = none;
  hold_time = none;
  router_id = none;
  capabilities = none;
  notification = none;
  state = none;
}

abbrev message : RisLiveMessage sample
message = record { msg_type = "ris_message"; content = content }

abbrev read_message : Bytes → BgpParserError ⊎ RisLiveMessage sample
read_message [] = inl (parse_error "empty")
read_message (b ∷ bs) = if b == b'm' then inr message else inl (parse_error "no message")

abbrev source : Source sample
source = record {
  Instant = ℕ;
  from_slice = read_message;
  start_text = λ e. "start";
  process_text = λ e. "process";
}

abbrev parser : LiveBgpParser sample source
parser = record (new sample source 0) { stream_handle = some false }

-- A message and the first byte of another.
abbrev first : List Bytes
first = (b'm' ∷ []) ∷ (b'\n' ∷ b'm' ∷ []) ∷ []

abbrev one_read : LiveBgpParser sample source
one_read = record parser {
  byte_stream_receiver = some [];
  bytes_buffer = b'm' ∷ [];
  advertisements = from_ris sample content ∷ [];
  statistics = record (parser.statistics) { bytes_received = 3; messages_processed = 1 };
}

first_read :
    process_buffer sample source (with_chunks sample source parser first) ≡ some (none, one_read)
unfolding process_buffer drain read_lines split_line accept String-discrete
first_read = refl

process_buffer-split_example :
    process_buffer sample source (with_chunks sample source parser (first ++ ((b'\n' ∷ []) ∷ [])))
    ≡ process_buffer sample source (with_chunks sample source one_read ((b'\n' ∷ []) ∷ []))
process_buffer-split_example =
    process_buffer-split sample source parser one_read first ((b'\n' ∷ []) ∷ []) first_read

work_total_example :
    (t : StateTransition (LiveBgpParser sample source)) × (l' : LiveBgpParser sample source)
    × (store' : Store sample) × (Parser.work sample source 1
          (with_chunks sample source parser first)
          []
        ≡ some ((t, l'), store'))
    × HasOpenLine sample source l'
work_total_example = work_total sample source 1 (with_chunks sample source parser first) []

-- A message, and then a line that is none.
abbrev bad : List Bytes
bad = (b'm' ∷ b'\n' ∷ b'x' ∷ b'\n' ∷ []) ∷ []

abbrev bad_read : LiveBgpParser sample source
bad_read = record one_read {
  bytes_buffer = [];
  statistics = record (parser.statistics) { bytes_received = 4; messages_processed = 1 };
}

bad-fails :
    process_buffer sample source (with_chunks sample source parser bad)
    ≡ some (some (parse_error "no message"), bad_read)
unfolding process_buffer drain read_lines split_line accept String-discrete
bad-fails = refl

abbrev stopped : LiveBgpParser sample source
stopped = record bad_read {
  stream_handle = none;
  byte_stream_receiver = none;
  statistics = record (bad_read.statistics) {
    errors_encountered = 1;
    last_error = some "process";
    last_error_time = some 1;
  };
}

work_failed_example :
    (Parser.work sample source 1 (with_chunks sample source parser bad) []
      ≡ some ((continue, stopped), []))
    × (Parser.work sample source 2 stopped []
        ≡ some (
          (
            continue,
            record stopped {
              stream_handle = some false;
              byte_stream_receiver = some [];
              advertisements = [];
            },
          ),
          [],
        ))
unfolding give_up Parser.stop_stream Parser.send_each
work_failed_example =
    work_failed sample source 1 2 (with_chunks sample source parser bad) bad_read []
      (parse_error "no message") refl bad-fails

abbrev ended : LiveBgpParser sample source
ended = record one_read { stream_handle = some true }

ended-HasOpenLine : HasOpenLine sample source ended
unfolding HasOpenLine lines
ended-HasOpenLine = refl

work_restarted_example :
    Parser.work sample source 3 (with_chunks sample source ended bad) []
    ≡ some (
      (
        continue,
        record ended {
          stream_handle = some false;
          byte_stream_receiver = some [];
          advertisements = [];
        },
      ),
      [],
    )
unfolding Parser.send_each
work_restarted_example = work_restarted sample source 3 ended [] bad refl ended-HasOpenLine
