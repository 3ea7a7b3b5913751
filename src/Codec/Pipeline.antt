-- ===== src/Codec/Pipeline.antt =====
-- Commands that are encoded one after the other, and the replies to them.
use openvpn_mgmt_codec.Prelude.{
  ℕ, ◌+◌, ◌≡◌, sym, ap, ◌∙◌, true, false, List, [], ◌∷◌, ◌++◌, none, append_assoc, append-nil, All,
  length, ◌<◌, arith,
}
use openvpn_mgmt_codec.Prelude.Results.{Result, ok, err}
use openvpn_mgmt_codec.Text.{Str, Bytes}
use openvpn_mgmt_codec.Frame.Types.{Frame, IoError, EncoderMode}
use openvpn_mgmt_codec.Frame.Encoder.{write_line, write_block}
use openvpn_mgmt_codec.Frame.Encoder.Lines.{IsClean}
use openvpn_mgmt_codec.Command.Types.{OvpnCommand, set_version}
use openvpn_mgmt_codec.Command.Response.{ResponseKind, no_response, expected_response}
use openvpn_mgmt_codec.Command.Response
use openvpn_mgmt_codec.Message.Types.{OvpnMessage, unrecognized, unexpected_line}
use openvpn_mgmt_codec.Codec.State.{OvpnCodec, front, pop_front, expected_front, consume_expected}
use openvpn_mgmt_codec.Codec.Wire.{Wire, one_line, block}
use openvpn_mgmt_codec.Codec.Wire.Safety.{IsChecked, IsSafeWire, command_wire-IsSafeWire}
use openvpn_mgmt_codec.Codec.Encode.{write_wire, encode}
use openvpn_mgmt_codec.Codec.Decode.Responses.{Replies, at, run, prepend, run-line}
use openvpn_mgmt_codec.Codec.Decode.{emit, is_malformed, on_line, start_line}
use openvpn_mgmt_codec.Codec.Decode.Polls.{polls, wires, IsReadable, polls-Replies}

-- What a call of `encode` does to the buffer: nothing, one line, or a block.
pub data Written (dst : Bytes) (mode : EncoderMode)
    : Bytes → Result IoError (Unit {0}) → Type 0 where
  refused : (e : IoError) → Written dst mode dst (err e)
  a_line : (s : Str) → IsClean s → Written dst mode (write_line dst s) (ok tt)
  a_block :
      (header : Str) (lines : List Str)
      → IsClean header
      → Written dst mode (write_block dst header lines mode).0 (write_block dst header lines mode).1

module _ (base64 : Bytes → Str) where
  write_wire-Written :
      (mode : EncoderMode) (dst : Bytes) (w : Wire)
      → IsSafeWire w
      → Written dst mode (write_wire mode dst w).0 (write_wire mode dst w).1
  unfolding write_wire
  write_wire-Written mode dst (one_line (ok s)) h = a_line s h
  write_wire-Written mode dst (one_line (err e)) h = refused e
  write_wire-Written mode dst (block header lines) h = a_block header lines h

  -- With a base64 encoder whose texts are clean and a command whose protocol, if any, is known
  -- or clean, a call of `encode` leaves the buffer as it is and fails, or appends one line free
  -- of `\n`, `\r` and `\0` with its newline, or writes a block with such a header.
  pub encode-Written :
      (c : OvpnCodec) (command : OvpnCommand) (dst : Bytes)
      → ((b : Bytes) → IsClean (base64 b))
      → IsChecked command
      → Written dst c.encoder_mode (encode base64 c command dst).1 (encode base64 c command dst).2
  unfolding encode
  encode-Written c command dst h k =
      write_wire-Written c.encoder_mode dst _
        (command_wire-IsSafeWire base64 h c.encoder_mode command k)

  -- The codec after the commands, whatever the buffers are that they are written to.
  unfoldable pub encode_all : OvpnCodec → List (OvpnCommand × Bytes) → OvpnCodec
  encode_all c [] = c
  encode_all c ((command, dst) ∷ rest) = encode_all (encode base64 c command dst).0 rest

  unfoldable pub kinds : List (OvpnCommand × Bytes) → List ResponseKind
  kinds [] = []
  kinds ((command, dst) ∷ rest) = expected_response command ∷ kinds rest

  encode_all-queue :
      (c : OvpnCodec) (cs : List (OvpnCommand × Bytes))
      → encode_all c cs ≡ record c { expected_queue = c.expected_queue ++ kinds cs }
  unfolding encode_all kinds encode
  encode_all-queue c [] =
      ap (λ q. record c { expected_queue = q }) (sym (append-nil c.expected_queue))
  encode_all-queue c ((command, dst) ∷ rest) =
      encode_all-queue (encode base64 c command dst).0 rest
      ∙ ap (λ q. record c { expected_queue = q })
          (append_assoc c.expected_queue (expected_response command ∷ []) (kinds rest))

  pub waiting :
      (c : OvpnCodec) (cs : List (OvpnCommand × Bytes))
      → c.expected_queue ≡ []
      → c.multi_line_buf ≡ none
      → encode_all c cs ≡ at c (kinds cs) none
  waiting c cs q b =
      encode_all-queue c cs
      ∙ (ap (λ l. record c { expected_queue = l ++ kinds cs }) q ∙ ap (at c (kinds cs)) b)

  -- A codec that waits for no response, has nothing accumulated and has seen the banner encodes
  -- commands that it does not refuse and that the server answers, so none of them is `exit`,
  -- `quit` or `version n` with `n < 4`. It is then polled on the bytes of one reply to each of
  -- them, in the order of the commands: a `SUCCESS:` or `ERROR:` line, or, where it waits for
  -- several lines, lines and `END`. Notifications may stand before, between and inside the
  -- replies; each line is readable and a response keeps to the limit. The codec yields exactly
  -- the messages of the replies and notifications in order, without an error, and is back in
  -- the state in which it was.
  pub encode_all-Replies :
      (c : OvpnCodec) (cs : List (OvpnCommand × Bytes)) {fs : List Frame} {ms : List OvpnMessage}
      → c.expected_queue ≡ []
      → c.multi_line_buf ≡ none
      → c.frame_decoder.seen_info ≡ true
      → All IsReadable fs
      → Replies c.max_multi_line_lines (kinds cs) fs ms
      → polls (length (wires fs) + 1) (encode_all c cs) (wires fs)
        ≡ record { codec = c; messages = ms; stopped = none }
  encode_all-Replies c cs {fs} {ms} q b i r rs =
      let idle : at c [] none ≡ c =
        ap (λ l. at c l none) (sym q) ∙ ap (at c c.expected_queue) (sym b) in
      rw (waiting c cs q b) (polls-Replies c i r rs ∙ rw idle)

  stale_kinds :
      (n : ℕ) (command : OvpnCommand) (d e : Bytes)
      → n < 4
      → kinds ((set_version n, d) ∷ (command, e) ∷ [])
        ≡ no_response ∷ expected_response command ∷ []
  unfolding kinds expected_response
  stale_kinds n command d e lt = ground arith

  on_line_stale :
      (c : OvpnCodec) (q : List ResponseKind) (x : ℕ) (text : Str)
      → is_malformed (x ∷ text) ≡ false
      → on_line (at c (no_response ∷ q) none) (x ∷ text)
        ≡ (at c q none, emit (unrecognized (x ∷ text) unexpected_line))
  unfolding on_line start_line expected_front consume_expected front pop_front
  on_line_stale c q x text m = rw m

  -- On a codec that waits for no response and has nothing accumulated, `version n` with `n < 4`
  -- and then a command with a response of several lines are encoded. The first line of that
  -- response, not empty and not malformed, is then reported as unrecognized, and the response
  -- is collected from its second line on.
  pub encode_all-lost_line :
      (c : OvpnCodec) (n : ℕ) (command : OvpnCommand) (d e : Bytes) (x : ℕ) (text : Str)
      (fs : List Frame)
      → c.expected_queue ≡ []
      → c.multi_line_buf ≡ none
      → n < 4
      → expected_response command ≡ Response.multi_line
      → is_malformed (x ∷ text) ≡ false
      → run (encode_all c ((set_version n, d) ∷ (command, e) ∷ [])) (Frame.line (x ∷ text) ∷ fs)
        ≡ prepend
            (unrecognized (x ∷ text) unexpected_line ∷ [])
            (run (at c (Response.multi_line ∷ []) none) fs)
  encode_all-lost_line c n command d e x text fs q b lt k m =
      rw (waiting c _ q b, stale_kinds n command d e lt, k)
        (run-line _ (x ∷ text) fs _ _ (on_line_stale c (Response.multi_line ∷ []) x text m))
