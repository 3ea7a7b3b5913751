-- ===== src/Codec/State.antt =====
-- The state of `OvpnCodec`, its builder methods and its queue of expected responses.
use openvpn_mgmt_codec.Prelude.{Bool, false, List, [], ◌∷◌, Option, none}
use openvpn_mgmt_codec.Text.{Str}
use openvpn_mgmt_codec.Frame.Types.{EncoderMode, sanitize, AccumulationLimit, max}
use openvpn_mgmt_codec.Frame.Decoder
use openvpn_mgmt_codec.Frame.Decoder.{FrameDecoder}
use openvpn_mgmt_codec.Command.Response.{ResponseKind, success_or_error}

pub record OvpnCodec : Type 0 where
  pub expected_queue : List ResponseKind
  pub multi_line_buf : Option (List Str)
  pub max_multi_line_lines : AccumulationLimit
  pub encoder_mode : EncoderMode
  pub frame_decoder : FrameDecoder
  pub frame_decoder_accumulating : Bool

abbrev pub new : OvpnCodec
new = record {
  expected_queue = [];
  multi_line_buf = none;
  max_multi_line_lines = max 10_000;
  encoder_mode = sanitize;
  frame_decoder = Decoder.new;
  frame_decoder_accumulating = false;
}

abbrev pub with_max_multi_line_lines : OvpnCodec → AccumulationLimit → OvpnCodec
with_max_multi_line_lines c limit = record c { max_multi_line_lines = limit }

abbrev pub with_max_client_env_entries : OvpnCodec → AccumulationLimit → OvpnCodec
with_max_client_env_entries c limit = record c {
  frame_decoder = Decoder.with_max_client_env_entries c.frame_decoder limit;
}

abbrev pub with_encoder_mode : OvpnCodec → EncoderMode → OvpnCodec
with_encoder_mode c mode = record c { encoder_mode = mode }

-- `front().copied().unwrap_or(SuccessOrError)`
unfoldable pub front : List ResponseKind → ResponseKind
front [] = success_or_error
front (kind ∷ queue) = kind

unfoldable pub pop_front : List ResponseKind → List ResponseKind
pop_front [] = []
pop_front (kind ∷ queue) = queue

unfoldable pub expected_front : OvpnCodec → ResponseKind
expected_front c = front c.expected_queue

unfoldable pub consume_expected : OvpnCodec → OvpnCodec
consume_expected c = record c { expected_queue = pop_front c.expected_queue }
