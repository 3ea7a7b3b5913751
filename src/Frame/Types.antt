-- ===== src/Frame/Types.antt =====
-- openvpn-mgmt-frame/src/frame.rs, and the limits, modes and errors of encoder.rs and decoder.rs.
use Prim.Native.String.{String}
use openvpn_mgmt_codec.Prelude.{ℕ}
use openvpn_mgmt_codec.Text.{Str}
use openvpn_mgmt_codec.Frame.EnvMap.{EnvMap}

pub data Frame : Type 0 where
  success : Str → Frame
  error : Str → Frame
  notification : Str → Str → Frame
  client_env : Str → Str → EnvMap → Frame
  password_prompt : Frame
  end : Frame
  info : Str → Frame
  line : Str → Frame

pub data EncoderMode : Type 0 where
  sanitize strict : EncoderMode

pub data AccumulationLimit : Type 0 where
  unlimited : AccumulationLimit
  max : ℕ → AccumulationLimit

-- `io::Error` with its inner error: not UTF-8, `AccumulationLimitExceeded`, `EncodeError`, and
-- the codec's `MultiLineAccumulationLimitExceeded`.
pub data IoError : Type 0 where
  invalid_data : IoError
  accumulation_limit_exceeded : String → ℕ → IoError
  unsafe_characters : String → IoError
  end_in_block_body : IoError
  multi_line_accumulation_limit_exceeded : ℕ → IoError
