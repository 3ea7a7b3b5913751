-- ===== src/Codec/Wire/Texts.antt =====
-- The pieces that command lines are made of contain no line break.
use openvpn_mgmt_codec.Prelude.{
  ℕ, ◌≡◌, refl, false, List, [], ◌∷◌, ◌++◌, arith, ◌==◌, All, All-append, Bool-cases, inl, inr,
}
use openvpn_mgmt_codec.Text.{Str, any}
use openvpn_mgmt_codec.Text.Decimal.{to_string, to_string-IsDigit, IsDigit}
use openvpn_mgmt_codec.Frame.Encoder.{wire_unsafe, escape, escape_char, quote}
use openvpn_mgmt_codec.Frame.Encoder.Lines.{IsClean, any-IsClean}
use openvpn_mgmt_codec.Values.TransportProtocol.{
  TransportProtocol, udp, tcp, unknown, transport_protocol_text,
}
use openvpn_mgmt_codec.Values.NeedOk.{NeedOkResponse, accept, cancel, need_ok_text}
use openvpn_mgmt_codec.Values.Auth.{AuthRetryMode, no_retry, interact, nointeract, auth_retry_text}
use openvpn_mgmt_codec.Values.Signal.{Signal, sighup, sigterm, sigusr1, sigusr2, signal_text}
use openvpn_mgmt_codec.Values.StatusFormat.{StatusFormat, v1, v2, v3, status_format_text}
use openvpn_mgmt_codec.Values.StreamMode.{
  StreamMode, on, off, all, on_all, recent, stream_mode_text,
}
use openvpn_mgmt_codec.Command.Types.{RemoteEntryRange, single, range, all_entries}
use openvpn_mgmt_codec.Codec.Wire.{words, quoted, range_text}

pub append-IsClean : (s t : Str) → IsClean s → IsClean t → IsClean (s ++ t)
append-IsClean s t = All-append _ s t

IsDigit-IsClean : (s : Str) → All IsDigit s → IsClean s
unfolding wire_unsafe
IsDigit-IsClean [] h = tt
IsDigit-IsClean (c ∷ s) h = (ground arith, IsDigit-IsClean s h.1)

pub to_string-IsClean : (n : ℕ) → IsClean (to_string n)
to_string-IsClean n = IsDigit-IsClean (to_string n) (to_string-IsDigit n)

escape_char-IsClean : (c : ℕ) → wire_unsafe c ≡ false → IsClean (escape_char c)
unfolding escape_char
escape_char-IsClean c h = elim (Bool-cases (c == b'\\')) [
  | inl e ↦ rw e (unfold wire_unsafe in (refl, (refl, tt)))
  | inr n ↦ elim (Bool-cases (c == b'"')) [
    | inl q ↦ rw (n, q) (unfold wire_unsafe in (refl, (refl, tt)))
    | inr m ↦ rw (n, m) (h, tt)
  ]
]

escape-IsClean : (s : Str) → IsClean s → IsClean (escape s)
unfolding escape
escape-IsClean [] h = tt
escape-IsClean (c ∷ s) h =
    append-IsClean (escape_char c) (escape s) (escape_char-IsClean c h.0) (escape-IsClean s h.1)

pub quoted-IsClean : (s : Str) → IsClean s → IsClean (quoted s)
unfolding quoted quote wire_unsafe
quoted-IsClean s h = (refl, append-IsClean (escape s) (b'"' ∷ []) (escape-IsClean s h) (refl, tt))

pub words-IsClean : (ws : List Str) → All IsClean ws → IsClean (words ws)
unfolding words wire_unsafe
words-IsClean [] h = tt
words-IsClean (w ∷ []) h = h.0
words-IsClean (w ∷ v ∷ ws) h = append-IsClean w _ h.0 (refl, words-IsClean (v ∷ ws) h.1)

-- A command line: its name, then its arguments.
pub command-IsClean :
    (name : Str) (ws : List Str)
    → any wire_unsafe name ≡ false
    → All IsClean ws
    → IsClean (words (name ∷ ws))
command-IsClean name ws e h = words-IsClean (name ∷ ws) (any-IsClean name e, h)

pub need_ok_text-IsClean : (v : NeedOkResponse) → IsClean (need_ok_text v)
unfolding need_ok_text any wire_unsafe
need_ok_text-IsClean accept = any-IsClean (need_ok_text accept) refl
need_ok_text-IsClean cancel = any-IsClean (need_ok_text cancel) refl

pub auth_retry_text-IsClean : (v : AuthRetryMode) → IsClean (auth_retry_text v)
unfolding auth_retry_text any wire_unsafe
auth_retry_text-IsClean no_retry = any-IsClean (auth_retry_text no_retry) refl
auth_retry_text-IsClean interact = any-IsClean (auth_retry_text interact) refl
auth_retry_text-IsClean nointeract = any-IsClean (auth_retry_text nointeract) refl

pub signal_text-IsClean : (v : Signal) → IsClean (signal_text v)
unfolding signal_text any wire_unsafe
signal_text-IsClean sighup = any-IsClean (signal_text sighup) refl
signal_text-IsClean sigterm = any-IsClean (signal_text sigterm) refl
signal_text-IsClean sigusr1 = any-IsClean (signal_text sigusr1) refl
signal_text-IsClean sigusr2 = any-IsClean (signal_text sigusr2) refl

pub status_format_text-IsClean : (v : StatusFormat) → IsClean (status_format_text v)
unfolding status_format_text any wire_unsafe
status_format_text-IsClean v1 = any-IsClean (status_format_text v1) refl
status_format_text-IsClean v2 = any-IsClean (status_format_text v2) refl
status_format_text-IsClean v3 = any-IsClean (status_format_text v3) refl

pub stream_mode_text-IsClean : (v : StreamMode) → IsClean (stream_mode_text v)
unfolding stream_mode_text any wire_unsafe
stream_mode_text-IsClean on = any-IsClean (stream_mode_text on) refl
stream_mode_text-IsClean off = any-IsClean (stream_mode_text off) refl
stream_mode_text-IsClean all = any-IsClean (stream_mode_text all) refl
stream_mode_text-IsClean on_all = any-IsClean (stream_mode_text on_all) refl
stream_mode_text-IsClean (recent n) = to_string-IsClean n

-- A protocol the source does not know is printed as it was read.
abbrev pub IsCleanProtocol : TransportProtocol → Type 0
IsCleanProtocol (unknown text) = IsClean text
IsCleanProtocol _ = Unit

pub transport_protocol_text-IsClean :
    (v : TransportProtocol) → IsCleanProtocol v → IsClean (transport_protocol_text v)
unfolding transport_protocol_text any wire_unsafe
transport_protocol_text-IsClean udp h = any-IsClean (transport_protocol_text udp) refl
transport_protocol_text-IsClean tcp h = any-IsClean (transport_protocol_text tcp) refl
transport_protocol_text-IsClean (unknown text) h = h

pub range_text-IsClean : (r : RemoteEntryRange) → IsClean (range_text r)
unfolding range_text any wire_unsafe
range_text-IsClean (single n) = to_string-IsClean n
range_text-IsClean (range n m) = words-IsClean _ (to_string-IsClean n, (to_string-IsClean m, tt))
range_text-IsClean all_entries = any-IsClean (range_text all_entries) refl

pub literal-IsClean : (s t : Str) → any wire_unsafe s ≡ false → IsClean t → IsClean (s ++ t)
literal-IsClean s t e h = append-IsClean s t (any-IsClean s e) h
