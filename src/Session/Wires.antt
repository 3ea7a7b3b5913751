-- ===== src/Session/Wires.antt =====
-- The session over the codec: a command is encoded, and the connection gives what polling the codec
-- on the reply's bytes gives (openvpn-mgmt-codec/src/session.rs, split.rs and codec.rs).
use mathlib.Core.Path.{subst}
use openvpn_mgmt_codec.Prelude.{
  ℕ, ◌+◌, ◌<◌, ◌≡◌, refl, sym, ap, ◌∙◌, List, [], ◌∷◌, ◌++◌, length, none, true, All, append-nil,
}
use openvpn_mgmt_codec.Prelude.Results.{Result, ok, err}
use openvpn_mgmt_codec.Text.{Str, Bytes}
use openvpn_mgmt_codec.Frame.Types.{Frame, AccumulationLimit}
use openvpn_mgmt_codec.Command.Types.{OvpnCommand}
use openvpn_mgmt_codec.Command.Response.{ResponseKind, success_or_error, expected_response}
use openvpn_mgmt_codec.Message.Types.{
  OvpnMessage, Notification, notification, success, error, multi_line,
}
use openvpn_mgmt_codec.Codec.State.{OvpnCodec}
use openvpn_mgmt_codec.Codec.Decode.Responses.{
  Reply, aside, succeeded, refused, answered, Replies, none_left, next_reply,
}
use openvpn_mgmt_codec.Codec.Decode.Polls.{polls, wires, IsReadable}
use openvpn_mgmt_codec.Codec.Pipeline.{encode_all, kinds, encode_all-Replies}
use openvpn_mgmt_codec.Session.Await.{
  Transport, item, EventStream, SessionError, done, server_error,
}
use openvpn_mgmt_codec.Session.{
  response, event_from, expect_success, send_expect_success, send_expect_multi_line,
}
use openvpn_mgmt_codec.Session.Laws.{Reads}
use openvpn_mgmt_codec.Session.Laws as Laws
use openvpn_mgmt_codec.Session.Replies.{
  read_on, Exchange, send_expect_success-Exchange, send_expect_multi_line-Exchange,
}

-- Notifications, and the response behind them.
unfoldable pub messages : List Notification → OvpnMessage → List OvpnMessage
messages [] m = m ∷ []
messages (n ∷ ns) m = notification n ∷ messages ns m

-- The last message of a reply to a command that is acknowledged: `SUCCESS:` or `ERROR:`, with what
-- the session makes of it.
pub data Acknowledged (E : Type 0) : OvpnMessage → Result (SessionError E) Str → Type 0 where
  payload : (text : Str) → Acknowledged E (success text) (ok text)
  refusal : (text : Str) → Acknowledged E (error text) (err (server_error text))

abbrev IsNil : List OvpnMessage → Type 0
IsNil [] = Unit
IsNil (m ∷ ms) = ⊥

Reply-nonempty :
    {limit : AccumulationLimit} {k : ResponseKind} {fs : List Frame} {ms : List OvpnMessage}
    → Reply limit k fs ms
    → IsNil ms
    → ⊥
Reply-nonempty (aside a r) h = h
Reply-nonempty (succeeded t a) h = h
Reply-nonempty (refused t a) h = h
Reply-nonempty (answered {ms = []} i b) h = h
Reply-nonempty (answered {ms = m ∷ ms} i b) h = h

Replies-Reply :
    {limit : AccumulationLimit} {k : ResponseKind} {fs : List Frame} {ms : List OvpnMessage}
    → Reply limit k fs ms
    → Replies limit (k ∷ []) fs ms
Replies-Reply {limit} {k} {fs} {ms} r =
    subst (λ gs. Replies limit (k ∷ []) gs ms) (append-nil fs)
      (subst (λ ns. Replies limit (k ∷ []) (fs ++ []) ns) (append-nil ms) (next_reply r none_left))

-- One command, and the messages of its reply.
pub polls-Reply :
    (base64 : Bytes → Str) (c : OvpnCodec) (command : OvpnCommand) (dst : Bytes) {fs : List Frame}
    {ms : List OvpnMessage}
    → c.expected_queue ≡ []
    → c.multi_line_buf ≡ none
    → c.frame_decoder.seen_info ≡ true
    → All IsReadable fs
    → Reply c.max_multi_line_lines (expected_response command) fs ms
    → (polls
        (length (wires fs) + 1)
        (encode_all base64 c ((command, dst) ∷ []))
        (wires fs)).messages
      ≡ ms
unfolding kinds
polls-Reply base64 c command dst {fs} {ms} q b i r reply =
    ap (λ ran. ran.messages)
      (encode_all-Replies base64 c ((command, dst) ∷ []) q b i r (Replies-Reply reply))

module _ {L E : Type 0} (T : Transport L E) where
  open T use {send, next}

  -- The connection gives the messages, one after the other, and is then at `l'`.
  abbrev pub Gives : L → List OvpnMessage → L → Type 0
  Gives l [] l' = l ≡ l'
  Gives l (m ∷ ms) l' = (k : L) × (next l ≡ (k, item (ok m))) × Gives k ms l'

  Gives-messages :
      (ns : List Notification) (m : OvpnMessage) (l : L) {l' : L}
      → Gives l (messages ns m) l'
      → (k : L) × Reads T l ns k × (next k ≡ (l', item (ok m)))
  unfolding messages
  Gives-messages [] m l (k, h, e) = (l, Laws.nil, rw (sym e) h)
  Gives-messages (n ∷ ns) m l (k, h, g) =
      let (k', r, e) = Gives-messages ns m k g in (k', Laws.cons n h r, e)

  Acknowledged-Reply :
      {limit : AccumulationLimit} {fs : List Frame} {ms : List OvpnMessage} {k : ResponseKind}
      (ns : List Notification) (m : OvpnMessage)
      → Reply limit k fs ms
      → k ≡ success_or_error
      → ms ≡ messages ns m
      → (r : Result (SessionError E) Str) × Acknowledged E m r
  unfolding messages
  Acknowledged-Reply [] m (aside {ms = ms} a r) h e =
      let nothing : [] ≡ ms = cc in absurd (Reply-nonempty r (subst IsNil nothing tt))
  Acknowledged-Reply (n ∷ ns) m (aside a r) h e = Acknowledged-Reply ns m r h cc
  Acknowledged-Reply [] m (succeeded t a) h e =
      let same : success t ≡ m = cc in (ok t, subst (λ x. Acknowledged E x (ok t)) same (payload t))
  Acknowledged-Reply [] m (refused t a) h e =
      let same : error t ≡ m = cc in
      (err (server_error t), subst (λ x. Acknowledged E x (err (server_error t))) same (refusal t))
  Acknowledged-Reply (n ∷ ns) m (succeeded t a) h e = absurd cc
  Acknowledged-Reply (n ∷ ns) m (refused t a) h e = absurd cc
  Acknowledged-Reply ns m (answered i b) h e = absurd cc

  Acknowledged-expect_success :
      (m : OvpnMessage) (r : Result (SessionError E) Str)
      → Acknowledged E m r
      → (expect_success T m ≡ r) × (event_from m ≡ response m)
  unfolding event_from
  Acknowledged-expect_success _ _ (payload t) = (refl, refl)
  Acknowledged-expect_success _ _ (refusal t) = (refl, refl)

  -- The codec has seen the banner and is idle, and the command is sent. The connection then gives
  -- the messages of polling the codec, which has encoded the command, on the reply's bytes.
  module _ (base64 : Bytes → Str) (c : OvpnCodec) (command : OvpnCommand) (dst : Bytes) (fuel : ℕ)
      (s : EventStream L) (sent_to l' : L) (fs : List Frame) (ns : List Notification)
      (q : c.expected_queue ≡ []) (b : c.multi_line_buf ≡ none)
      (i : c.frame_decoder.seen_info ≡ true) (r : All IsReadable fs)
      (e : send s.inner command ≡ (sent_to, ok tt))
      (g : Gives sent_to
        (polls
          (length (wires fs) + 1)
          (encode_all base64 c ((command, dst) ∷ []))
          (wires fs)).messages
        l')
      (lt : length ns < fuel) where
    Exchange-Reply :
        (m : OvpnMessage)
        → Reply c.max_multi_line_lines (expected_response command) fs (messages ns m)
        → Exchange T s command ns (item (ok m)) l'
    Exchange-Reply m reply =
        let (k, rs, n) =
          Gives-messages ns m sent_to (
            subst (λ ms. Gives sent_to ms l') (polls-Reply base64 c command dst q b i r reply) g) in
        record { sent_to = sent_to; ends_at = k; is_sent = e; is_read = rs; is_next = n }

    -- A codec that waits for nothing, has nothing accumulated and has seen the banner encodes a
    -- command that is acknowledged, and the session sends it. The connection gives the messages
    -- that polling the codec on the bytes of the reply yields, where the reply is readable
    -- lines with notifications before the answer. With fuel above the number of notifications,
    -- `send_expect_success` is then done with the payload of `SUCCESS:`, or with the server's
    -- error; the notifications are in the stash, in order, and the connection is behind the
    -- answer.
    pub send_expect_success-Acknowledged :
        (m : OvpnMessage)
        → expected_response command ≡ success_or_error
        → Reply c.max_multi_line_lines (expected_response command) fs (messages ns m)
        → (r : Result (SessionError E) Str) × Acknowledged E m r
          × (send_expect_success T fuel command s ≡ (read_on s ns l', done r))
    send_expect_success-Acknowledged m k reply =
        let (r, a) = Acknowledged-Reply ns m reply k refl in
        let (e, f) = Acknowledged-expect_success m r a in
        (
          r,
          a,
          send_expect_success-Exchange T fuel s command lt m (Exchange-Reply m reply) f
              ∙ ap (λ z. (read_on s ns l', done z)) e,
        )

    -- A codec that waits for nothing, has nothing accumulated and has seen the banner encodes a
    -- command, and the session sends it. The connection gives the messages that polling the
    -- codec on the bytes of the reply yields, where the reply is readable lines that stand for
    -- notifications and then for a response of several lines. With fuel above the number of
    -- notifications, `send_expect_multi_line` is then done with exactly these lines; the
    -- notifications are in the stash, in order, and the connection is behind the response.
    pub send_expect_multi_line-Reply :
        (lines : List Str)
        → Reply c.max_multi_line_lines
            (expected_response command)
            fs
            (messages ns (multi_line lines))
        → send_expect_multi_line T fuel command s ≡ (read_on s ns l', done (ok lines))
    unfolding event_from
    send_expect_multi_line-Reply lines reply =
        send_expect_multi_line-Exchange T fuel s command lt (multi_line lines)
          (Exchange-Reply (multi_line lines) reply) refl
