-- ===== src/Codec/Encode.antt =====
-- `Encoder::encode` of openvpn-mgmt-codec/src/codec.rs.
use openvpn_mgmt_codec.Prelude.{[], ◌∷◌, ◌++◌}
use openvpn_mgmt_codec.Prelude.Results.{Result, ok, err}
use openvpn_mgmt_codec.Text.{Str, Bytes}
use openvpn_mgmt_codec.Frame.Types.{EncoderMode, IoError}
use openvpn_mgmt_codec.Frame.Encoder.{write_line, write_block}
use openvpn_mgmt_codec.Command.Types.{OvpnCommand}
use openvpn_mgmt_codec.Command.Response.{expected_response}
use openvpn_mgmt_codec.Codec.State.{OvpnCodec}
use openvpn_mgmt_codec.Codec.Wire.{Wire, one_line, block, command_wire}

unfoldable pub write_wire : EncoderMode → Bytes → Wire → Bytes × Result IoError (Unit {0})
write_wire mode dst (one_line (ok line)) = (write_line dst line, ok tt)
write_wire mode dst (one_line (err e)) = (dst, err e)
write_wire mode dst (block header lines) = write_block dst header lines mode

-- The expected response is queued before the command is written, and stays queued on an error.
unfoldable pub encode :
    (Bytes → Str) → OvpnCodec → OvpnCommand → Bytes → OvpnCodec × Bytes × Result IoError (Unit {0})
encode base64 c item dst =
    let written = write_wire c.encoder_mode dst (command_wire base64 c.encoder_mode item) in
    (
      record c { expected_queue = c.expected_queue ++ (expected_response item ∷ []) },
      written.0,
      written.1,
    )
