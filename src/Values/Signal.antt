-- ===== src/Values/Signal.antt =====
-- openvpn-mgmt-codec/src/signal.rs: the type, its `Display` and its `FromStr`; the error holds the refused text.
use openvpn_mgmt_codec.Prelude.{◌≡◌, refl, if◌then◌else◌}
use openvpn_mgmt_codec.Prelude.Results.{Result, ok, err}
use openvpn_mgmt_codec.Text.{Str, codes, str_eq}

pub data Signal : Type 0 where
  sighup sigterm sigusr1 sigusr2 : Signal

unfoldable pub signal_text : Signal → Str
signal_text sighup = codes "SIGHUP"
signal_text sigterm = codes "SIGTERM"
signal_text sigusr1 = codes "SIGUSR1"
signal_text sigusr2 = codes "SIGUSR2"

unfoldable pub parse_signal : Str → Result Str Signal
parse_signal input =
    if str_eq input (codes "SIGHUP")
    then ok sighup
    else if str_eq input (codes "SIGTERM")
    then ok sigterm
    else if str_eq input (codes "SIGUSR1")
    then ok sigusr1
    else if str_eq input (codes "SIGUSR2")
    then ok sigusr2
    else err input

-- Every known value of `Signal` is read back from the text that it is printed as.
pub parse_signal-signal_text : (v : Signal) → parse_signal (signal_text v) ≡ ok v
unfolding parse_signal signal_text str_eq
parse_signal-signal_text sighup = refl
parse_signal-signal_text sigterm = refl
parse_signal-signal_text sigusr1 = refl
parse_signal-signal_text sigusr2 = refl
