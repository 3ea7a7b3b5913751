-- ===== src/Frame/Encoder.antt =====
-- openvpn-mgmt-frame/src/encoder.rs: the primitives that write the wire format. What is written
-- is appended to the buffer `dst`; `reserve` changes no content and is left out.
pub mod Lines
pub mod Blocks
use Prim.Native.String.{String}
use openvpn_mgmt_codec.Prelude.{
  ℕ, Bool, true, false, ◌||◌, not, List, [], ◌∷◌, ◌++◌, ◌==◌, if◌then◌else◌,
}
use openvpn_mgmt_codec.Prelude.Results.{Result, ok, err, ◌>>=◌}
use openvpn_mgmt_codec.Text.{Str, Bytes, codes, str_eq, any}
use openvpn_mgmt_codec.Text.Utf8.{as_bytes}
use openvpn_mgmt_codec.Frame.Types.{
  EncoderMode, sanitize, strict, IoError, unsafe_characters, end_in_block_body,
}

-- `WIRE_UNSAFE.contains`
unfoldable pub wire_unsafe : ℕ → Bool
wire_unsafe c = c == b'\n' || c == b'\r' || c == 0

-- `s.chars().filter(|chr| !WIRE_UNSAFE.contains(chr))`
unfoldable pub without_unsafe : Str → Str
without_unsafe [] = []
without_unsafe (c ∷ s) = if wire_unsafe c then without_unsafe s else c ∷ without_unsafe s

unfoldable pub wire_safe : Str → String → EncoderMode → Result IoError Str
wire_safe s field sanitize = if not (any wire_unsafe s) then ok s else ok (without_unsafe s)
wire_safe s field strict = if not (any wire_unsafe s) then ok s else err (unsafe_characters field)

-- What one character contributes to the output of `escape`.
unfoldable pub escape_char : ℕ → Str
escape_char c =
    if c == b'\\' then b'\\' ∷ b'\\' ∷ [] else if c == b'"' then b'\\' ∷ b'"' ∷ [] else c ∷ []

unfoldable pub escape : Str → Str
unfolding escape_char
escape [] = []
escape (c ∷ s) = escape_char c ++ escape s

unfoldable pub quote : Str → Str
quote s = b'"' ∷ (s ++ (b'"' ∷ []))

unfoldable pub write_line : Bytes → Str → Bytes
unfolding as_bytes
write_line dst s = dst ++ (as_bytes s ++ (b'\n' ∷ []))

-- The loop of `write_block` over the body. An error keeps what was written before it.
unfoldable pub write_body : Bytes → List Str → EncoderMode → Bytes × Result IoError (Unit {0})
unfolding str_eq
write_body dst [] mode = (dst, ok tt)
write_body dst (line ∷ lines) mode = elim (wire_safe line "block body line" mode) [
  | err e ↦ (dst, err e)
  | ok clean ↦
      let plain = write_body (dst ++ (as_bytes clean ++ (b'\n' ∷ []))) lines mode in
      let escaped = write_body (dst ++ (as_bytes (codes " END") ++ (b'\n' ∷ []))) lines mode in
      let at_end : Bytes × Result IoError (Unit {0}) = elim mode [
        | sanitize ↦ escaped
        | strict ↦ (dst, err end_in_block_body)
      ] in
      if str_eq clean (codes "END") then at_end else plain
]

-- The terminator, unless the body failed.
abbrev close_block : Bytes × Result IoError (Unit {0}) → Bytes × Result IoError (Unit {0})
close_block (dst, ok _) = (dst ++ as_bytes (codes "END\n"), ok tt)
close_block (dst, err e) = (dst, err e)

unfoldable pub write_block :
    Bytes → Str → List Str → EncoderMode → Bytes × Result IoError (Unit {0})
unfolding write_body as_bytes
write_block dst header lines mode =
    close_block (write_body (dst ++ (as_bytes header ++ (b'\n' ∷ []))) lines mode)
