-- ===== src/Tests/Frame.antt =====
-- The frame library: concrete runs of the decoder and the encoder.
use openvpn_mgmt_codec.Prelude.{◌≡◌, ◌↔◌, refl, some, List, [], ◌∷◌, ◌++◌, arith, All, inl, inr}
use openvpn_mgmt_codec.Prelude.Results.{ok, err}
use mathlib.Core.List.{map}
use openvpn_mgmt_codec.Text.{Str, Bytes, codes, str_eq, any, trim_end_by}
use openvpn_mgmt_codec.Text.Laws.{str_eq-false}
use openvpn_mgmt_codec.Text.Utf8.{as_bytes}
use openvpn_mgmt_codec.Frame.Types.{Frame, sanitize, strict, max}
use openvpn_mgmt_codec.Frame.Encoder.{wire_unsafe, write_block}
use openvpn_mgmt_codec.Frame.Encoder.Lines.{any-IsClean}
use openvpn_mgmt_codec.Frame.Encoder.Blocks.{
  lines_from, read_block, body_bytes, end_line, unlines, bad_line, IsBodyLine, write_block_framing,
  write_block-strict, write_block_strict_partial,
}
use openvpn_mgmt_codec.Frame.Decoder.{
  ClientEnvAccumulator, FrameDecoder, Decoded, frame, failed, decode,
}
use openvpn_mgmt_codec.Frame.Decoder
use openvpn_mgmt_codec.Frame.Decoder.Progress.{Took, decode-Took}
use openvpn_mgmt_codec.Frame.Decoder.Chunks.{extend, decode-append}
use openvpn_mgmt_codec.Frame.Decoder.Limits.{
  WithinLimit, FrameFits, AfterError, decode-WithinLimit, decode-AfterError,
}
use openvpn_mgmt_codec.Frame.Decoder.Lines.{IsLine, IsWire, noted, wire, decode-wire}
use openvpn_mgmt_codec.Frame.Decoder.Blocks.{
  header_line, block_bytes, collect, closed, IsEntry, decode_block,
}
use openvpn_mgmt_codec.Frame.Decoder.Steps.{Step}
use openvpn_mgmt_codec.Frame.Decoder.Refinement.{Step-decode_line_iff}

abbrev hold_line : Bytes
hold_line = as_bytes (codes ">HOLD:Waiting") ++ (b'\n' ∷ as_bytes (codes ">STA"))

abbrev limited : FrameDecoder
limited = Decoder.with_max_client_env_entries Decoder.new (max 2)

abbrev entries : List (Str × Str)
entries = (codes "a", codes "1") ∷ (codes "b", []) ∷ []

abbrev hold : Frame
hold = Frame.notification (codes "HOLD") (codes "Waiting")

hold-IsLine : IsLine (wire hold)
unfolding trim_end_by
hold-IsLine = (omega arith, omega arith, refl)

hold-IsWire : IsWire Decoder.new hold
unfolding str_eq
hold-IsWire = (
  omega arith,
  str_eq-false (codes "HOLD") (codes "CLIENT") refl,
  inl (str_eq-false (codes "HOLD") (codes "INFO") refl),
)

-- The banner aside, what a fresh decoder returns for the line is the notification.
hold_line-decoded :
    decode Decoder.new hold_line
    ≡ record { decoder = Decoder.new; buffer = codes ">STA"; outcome = frame hold }
unfolding as_bytes
hold_line-decoded = decode-wire Decoder.new hold (codes ">STA") hold-IsLine hold-IsWire

decode-wire_example :
    decode Decoder.new (as_bytes (wire hold) ++ (b'\n' ∷ b'>' ∷ []))
    ≡ record { decoder = noted Decoder.new hold; buffer = b'>' ∷ []; outcome = frame hold }
decode-wire_example = decode-wire Decoder.new hold (b'>' ∷ []) hold-IsLine hold-IsWire

decode-append_example :
    decode Decoder.new (hold_line ++ codes "TE:1\n")
    ≡ extend (decode Decoder.new hold_line) (codes "TE:1\n")
decode-append_example =
    decode-append Decoder.new hold_line (codes "TE:1\n") (rw hold_line-decoded (λ e. cc e))

decode-Took_example : Took hold_line (decode Decoder.new hold_line)
decode-Took_example = decode-Took Decoder.new hold_line

decode-WithinLimit_example :
    WithinLimit (max 2) (decode limited hold_line).decoder
    × FrameFits (decode limited hold_line).outcome (max 2)
decode-WithinLimit_example = decode-WithinLimit (max 2) limited hold_line (tt, refl)

header-IsLine : IsLine (header_line (codes "CONNECT") (codes "0,1"))
unfolding trim_end_by
header-IsLine = (omega arith, omega arith, refl)

entries-IsEntry : All IsEntry entries
unfolding trim_end_by
entries-IsEntry = (
  ((omega arith, omega arith, refl), omega arith),
  (((omega arith, omega arith, refl), omega arith), tt),
)

decode_block_example :
    decode limited (block_bytes (codes "CONNECT") (codes "0,1") entries [])
    ≡ closed limited (codes "CONNECT") (codes "0,1") (collect [] entries) []
decode_block_example =
    decode_block limited (codes "CONNECT") (codes "0,1") entries [] refl header-IsLine (omega arith)
      (str_eq-false (codes "CONNECT") (codes "ADDRESS") (unfold str_eq in refl)) entries-IsEntry
      (omega arith)

abbrev opening : Str
opening = codes ">CLIENT:CONNECT,0,1"

Step-decode_line_iff_example :
    Step limited opening (Decoder.decode_line limited opening)
    ↔ (Decoder.decode_line limited opening ≡ Decoder.decode_line limited opening)
Step-decode_line_iff_example =
    Step-decode_line_iff limited opening (Decoder.decode_line limited opening)

abbrev block : ClientEnvAccumulator
block = record { event = codes "CONNECT"; args = codes "0,1"; env = entries }

abbrev full : FrameDecoder
full = record limited { client_notification = some block }

-- A third entry is one too many.
decode-AfterError_example :
    let r = decode full (codes ">CLIENT:ENV,c=2\n") in AfterError r.decoder r.outcome
decode-AfterError_example = decode-AfterError full (codes ">CLIENT:ENV,c=2\n")

write_block_framing_example :
    (out : Bytes) × (write_block [] (codes "rsa-sig") (codes "END" ∷ codes "a\nb" ∷ []) sanitize
      ≡ ([] ++ out, ok tt))
    × (lines_from [] out
        ≡ as_bytes (codes "rsa-sig")
          ∷ (body_bytes (codes "END" ∷ codes "a\nb" ∷ []) ++ (end_line ∷ [])))
    × (read_block (body_bytes (codes "END" ∷ codes "a\nb" ∷ []) ++ (end_line ∷ []))
        ≡ body_bytes (codes "END" ∷ codes "a\nb" ∷ []))
write_block_framing_example =
    write_block_framing [] (codes "rsa-sig") (codes "END" ∷ codes "a\nb" ∷ []) (omega arith)

sig_line-IsBodyLine : IsBodyLine (codes "AB")
unfolding any wire_unsafe str_eq
sig_line-IsBodyLine = (any-IsClean (codes "AB") refl, str_eq-false (codes "AB") end_line refl)

write_block-strict_example : write_block [] (codes "rsa-sig") (codes "AB" ∷ []) strict ≡ (
  [] ++ unlines (as_bytes (codes "rsa-sig") ∷ (map as_bytes (codes "AB" ∷ []) ++ (end_line ∷ []))),
  ok tt,
)
write_block-strict_example =
    write_block-strict [] (codes "rsa-sig") (codes "AB" ∷ []) (sig_line-IsBodyLine, tt)

write_block_strict_partial_example :
    write_block [] (codes "rsa-sig") ((codes "AB" ∷ []) ++ (codes "END" ∷ [])) strict ≡ (
      [] ++ unlines (as_bytes (codes "rsa-sig") ∷ map as_bytes (codes "AB" ∷ [])),
      err (bad_line (codes "END")),
    )
write_block_strict_partial_example =
    write_block_strict_partial [] (codes "rsa-sig") (codes "AB" ∷ []) [] (codes "END")
      (sig_line-IsBodyLine, tt) (inr refl)
