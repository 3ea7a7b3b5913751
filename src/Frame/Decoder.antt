-- ===== src/Frame/Decoder.antt =====
-- openvpn-mgmt-frame/src/decoder.rs: `FrameDecoder` and its `decode`. Reserving capacity and the
-- warning of a malformed notification change nothing here and are left out.
pub mod Rounds
pub mod Progress
pub mod Chunks
pub mod Rule
pub mod Steps
pub mod Sound
pub mod Refinement
pub mod Limits
pub mod Lines
pub mod Blocks
use Prim.Native.String.{String}
use openvpn_mgmt_codec.Prelude.{
  ℕ, zero, suc, ◌+◌, Bool, true, false, ◌&&◌, ◌||◌, List, [], ◌∷◌, ◌++◌, Option, none, some, leb,
  ◌==◌, if◌then◌else◌, is_none, length, take, drop,
}
use openvpn_mgmt_codec.Prelude.Options.{map, unwrap_or}
use openvpn_mgmt_codec.Prelude.Results.{Result, ok, err}
use openvpn_mgmt_codec.Text.{
  Str, Bytes, codes, str_eq, is_empty, strip_prefix, split_once_by, split_once, trim_end_by,
}
use openvpn_mgmt_codec.Text.Utf8.{from_utf8}
use openvpn_mgmt_codec.Frame.EnvMap.{EnvMap, insert}
use openvpn_mgmt_codec.Frame.Types.{
  Frame, success, error, notification, client_env, password_prompt, end, info, line,
  AccumulationLimit, unlimited, max, IoError, invalid_data, accumulation_limit_exceeded,
}

abbrev pub pw_prompt : Bytes
pw_prompt = codes "ENTER PASSWORD:"

pub record ClientEnvAccumulator : Type 0 where
  pub event : Str
  pub args : Str
  pub env : EnvMap

pub record FrameDecoder : Type 0 where
  pub client_notification : Option ClientEnvAccumulator
  pub max_client_env_entries : AccumulationLimit
  pub seen_info : Bool

abbrev pub new : FrameDecoder
new = record { client_notification = none; max_client_env_entries = unlimited; seen_info = false }

abbrev pub with_max_client_env_entries : FrameDecoder → AccumulationLimit → FrameDecoder
with_max_client_env_entries d limit = record d { max_client_env_entries = limit }

unfoldable pub check_accumulation_limit : ℕ → AccumulationLimit → String → Result IoError (Unit {0})
check_accumulation_limit current_len unlimited what = ok tt
check_accumulation_limit current_len (max limit) what =
    if leb limit current_len then err (accumulation_limit_exceeded what limit) else ok tt

-- What one line does to the loop of `decode`: return a frame, `continue`, or return an error.
pub data LineStep : Type 0 where
  emit : Frame → LineStep
  continue : LineStep
  refuse : IoError → LineStep

-- Phase 1: an ENV line while `accum` is being filled.
unfoldable pub env_line : FrameDecoder → ClientEnvAccumulator → Str → FrameDecoder × LineStep
env_line d accum rest =
    let entry = unwrap_or (split_once b'=' rest) (rest, []) in
    let added : FrameDecoder = record d {
      client_notification = some (record accum { env = insert entry.0 entry.1 accum.env });
    } in
    if str_eq rest (codes "END")
    then (
      record d { client_notification = none },
      emit (client_env accum.event accum.args accum.env),
    )
    else elim (check_accumulation_limit (length accum.env) d.max_client_env_entries "client ENV") [
      | err e ↦ (d, refuse e)
      | ok _ ↦ (added, continue)
    ]

-- Phase 3, `>CLIENT:`: single-line for ADDRESS, else the accumulation starts.
unfoldable pub client_line : FrameDecoder → Str → FrameDecoder × LineStep
client_line d payload =
    let cut = unwrap_or (split_once b',' payload) (payload, []) in
    if str_eq cut.0 (codes "ADDRESS") then (d, emit (notification (codes "CLIENT") payload)) else (
      record d { client_notification = some (record { event = cut.0; args = cut.1; env = [] }) },
      continue,
    )

-- Phase 3, `>INFO:`: the first one is the banner.
unfoldable pub info_line : FrameDecoder → Str → Str → FrameDecoder × LineStep
info_line d kind payload =
    if d.seen_info
    then (d, emit (notification kind payload))
    else (record d { seen_info = true }, emit (info payload))

-- Phase 3: a notification with its kind and payload.
unfoldable pub by_kind : FrameDecoder → Str → Str → FrameDecoder × LineStep
by_kind d kind payload =
    if str_eq kind (codes "INFO")
    then info_line d kind payload
    else if str_eq kind (codes "CLIENT")
    then client_line d payload
    else (d, emit (notification kind payload))

-- Phase 3: the line behind its `>`. Without a colon it is passed on as a plain line.
unfoldable pub notification_line : FrameDecoder → Str → Str → FrameDecoder × LineStep
notification_line d text inner = elim (split_once b':' inner) [
  | none ↦ (d, emit (line text))
  | some (kind, payload) ↦ by_kind d kind payload
]

abbrev after_space : Str → Str
after_space rest = unwrap_or (strip_prefix (codes " ") rest) rest

-- Phases 2 to 4.
unfoldable pub classify : FrameDecoder → Str → FrameDecoder × LineStep
classify d text = elim (strip_prefix (codes "SUCCESS:") text) [
  | some rest ↦ (d, emit (success (after_space rest)))
  | none ↦ elim (strip_prefix (codes "ERROR:") text) [
    | some rest ↦ (d, emit (error (after_space rest)))
    | none ↦
        let other : FrameDecoder × LineStep = elim (strip_prefix (codes ">") text) [
          | some inner ↦ notification_line d text inner
          | none ↦ (d, emit (line text))
        ] in
        if str_eq text pw_prompt
        then (d, emit password_prompt)
        else if str_eq text (codes "END")
        then (d, emit end)
        else other
  ]
]

-- The body of the loop, behind the extraction of the line.
unfoldable pub decode_line : FrameDecoder → Str → FrameDecoder × LineStep
decode_line d text = elim d.client_notification [
  | none ↦ if is_empty text then (d, emit (line text)) else classify d text
  | some accum ↦ elim (strip_prefix (codes ">CLIENT:ENV,") text) [
    | some rest ↦ env_line d accum rest
    | none ↦ classify d text
  ]
]

pub data Outcome : Type 0 where
  frame : Frame → Outcome
  pending : Outcome
  failed : IoError → Outcome
  out_of_fuel : Outcome

-- What a call of `decode` leaves behind, and what it returns: `Ok(Some(f))`, `Ok(None)`, `Err(e)`.
pub record Decoded : Type 0 where
  pub decoder : FrameDecoder
  pub buffer : Bytes
  pub outcome : Outcome

-- `src.iter().position(|&b| b == x)`
unfoldable pub position : ℕ → Bytes → Option ℕ
position x [] = none
position x (b ∷ s) = if b == x then some 0 else map suc (position x s)

abbrev pub is_line_end : ℕ → Bool
is_line_end c = c == b'\r' || c == b'\n'

-- The bytes behind a prompt, without one `\r`.
abbrev skip_cr : Bytes → Bytes
skip_cr [] = []
skip_cr (b ∷ s) = if b == b'\r' then s else b ∷ s

-- No complete line: the password prompt may come without its newline.
unfoldable pub decode_partial : FrameDecoder → Bytes → Decoded
decode_partial d src = elim (strip_prefix pw_prompt src) [
  | some behind ↦ record { decoder = d; buffer = skip_cr behind; outcome = frame password_prompt }
  | none ↦ record { decoder = d; buffer = src; outcome = pending }
]

-- The end of a round: `again` is the next round of the loop.
abbrev pub resume : (FrameDecoder → Decoded) → Bytes → FrameDecoder × LineStep → Decoded
resume again src (d, emit f) = record { decoder = d; buffer = src; outcome = frame f }
resume again src (d, continue) = again d
resume again src (d, refuse e) = record { decoder = d; buffer = src; outcome = failed e }

-- The text of a line without its end, if it is UTF-8.
unfoldable pub line_text : Bytes → Option Str
line_text line_bytes = map (trim_end_by is_line_end) (from_utf8 line_bytes)

-- The rest of a round, for the line's text and the bytes behind the line.
abbrev pub round : (FrameDecoder → Decoded) → FrameDecoder → Option Str → Bytes → Decoded
round again d none src = record {
  decoder = record d { client_notification = none };
  buffer = src;
  outcome = failed invalid_data;
}
round again d (some text) src = resume again src (decode_line d text)

-- The loop of `decode`, a round for each line.
unfoldable pub decode_loop : ℕ → FrameDecoder → Bytes → Decoded
decode_loop zero d src = record { decoder = d; buffer = src; outcome = out_of_fuel }
decode_loop (suc fuel) d src = elim (position b'\n' src) [
  | none ↦ decode_partial d src
  | some newline_pos ↦
      let src' = drop (newline_pos + 1) src in
      round (λ d'. decode_loop fuel d' src') d (line_text (take (newline_pos + 1) src)) src'
]

-- A round removes a line, so the length of the buffer bounds the rounds.
unfoldable pub decode : FrameDecoder → Bytes → Decoded
decode d src = decode_loop (suc (length src)) d src
