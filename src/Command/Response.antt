-- ===== src/Command/Response.antt =====
-- `ResponseKind` and `expected_response` of openvpn-mgmt-codec/src/command.rs, and the two startup
-- sequences.
use openvpn_mgmt_codec.Prelude.{ℕ, ◌++◌, List, [], ◌∷◌, ltb, if◌then◌else◌}
use openvpn_mgmt_codec.Values.StreamMode.{StreamMode, on, off, all, on_all, recent}
use openvpn_mgmt_codec.Command.Types.{
  OvpnCommand, status, state, state_stream, version, set_version, pid, help, net, log, echo,
  byte_count, hold_release, exit, quit, env_filter, remote_entry_count, remote_entry_get,
  raw_multi_line,
}

pub data ResponseKind : Type 0 where
  success_or_error multi_line no_response : ResponseKind

unfoldable pub stream_response : StreamMode → ResponseKind
stream_response all = multi_line
stream_response on_all = multi_line
stream_response (recent n) = multi_line
stream_response on = success_or_error
stream_response off = success_or_error

unfoldable pub expected_response : OvpnCommand → ResponseKind
expected_response (status f) = multi_line
expected_response version = multi_line
expected_response help = multi_line
expected_response net = multi_line
expected_response remote_entry_count = multi_line
expected_response (remote_entry_get r) = multi_line
expected_response (state_stream mode) = stream_response mode
expected_response (log mode) = stream_response mode
expected_response (echo mode) = stream_response mode
expected_response state = multi_line
expected_response (raw_multi_line cmd) = multi_line
expected_response exit = no_response
expected_response quit = no_response
expected_response (set_version n) = if ltb n 4 then no_response else success_or_error
expected_response _ = success_or_error

unfoldable pub connection_sequence : ℕ → List OvpnCommand
connection_sequence bytecount_interval =
    (log on_all ∷ state_stream on_all ∷ pid ∷ [])
    ++ ((if ltb 0 bytecount_interval then byte_count bytecount_interval ∷ [] else [])
        ++ (hold_release ∷ []))

unfoldable pub server_connection_sequence : ℕ → ℕ → List OvpnCommand
server_connection_sequence bytecount_interval filter =
    (log on_all ∷ state_stream on_all ∷ pid ∷ env_filter filter ∷ [])
    ++ ((if ltb 0 bytecount_interval then byte_count bytecount_interval ∷ [] else [])
        ++ (hold_release ∷ []))
