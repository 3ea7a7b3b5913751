-- ===== src/Codec/Decode/Responses.antt =====
-- The decoder at the level of frames: responses, in the order of their commands, with
-- notifications anywhere between and inside them.
use openvpn_mgmt_codec.Prelude.{
  ◌+◌, ◌≡◌, refl, sym, ap, ◌∙◌, false, List, [], ◌∷◌, ◌++◌, append_assoc, append-nil, Option, none,
  some, arith, length, length-append,
}
use openvpn_mgmt_codec.Text.{Str}
use openvpn_mgmt_codec.Frame.Types.{Frame, AccumulationLimit, IoError}
use openvpn_mgmt_codec.Frame.Decoder.Limits.{Below, Below-mono}
use openvpn_mgmt_codec.Command.Response.{ResponseKind, success_or_error, no_response}
use openvpn_mgmt_codec.Command.Response
use openvpn_mgmt_codec.Message.Types.{
  OvpnMessage, success, error, multi_line, info, password_prompt,
}
use openvpn_mgmt_codec.Message.Parse.{parse_notification_from_frame}
use openvpn_mgmt_codec.Codec.State.{OvpnCodec, front, pop_front, expected_front, consume_expected}
use openvpn_mgmt_codec.Codec.Decode.{
  MessageStep, emit, continue, refuse, on_end, push_line, start_line, is_malformed, on_line,
  on_frame,
}

-- What a row of frames leaves and yields; the first error stops it.
pub record Ran : Type 0 where
  pub codec : OvpnCodec
  pub messages : List OvpnMessage
  pub stopped : Option IoError

unfoldable pub prepend : List OvpnMessage → Ran → Ran
prepend ms r = record r { messages = ms ++ r.messages }

abbrev pub after_step : (OvpnCodec → Ran) → OvpnCodec × MessageStep → Ran
after_step again (c, emit m) = prepend (m ∷ []) (again c)
after_step again (c, continue) = again c
after_step again (c, refuse e) = record { codec = c; messages = []; stopped = some e }

unfoldable pub run : OvpnCodec → List Frame → Ran
run c [] = record { codec = c; messages = []; stopped = none }
run c (f ∷ fs) = after_step (λ c'. run c' fs) (on_frame c f)

-- The codec with a given queue of expected responses and a given accumulation.
abbrev pub at : OvpnCodec → List ResponseKind → Option (List Str) → OvpnCodec
at c queue buf = record c { expected_queue = queue; multi_line_buf = buf }

-- A frame that answers no command, with its message. (`>CLIENT` blocks are not among them: their
-- frame also resets a flag of the codec.)
pub data IsAside : Frame → OvpnMessage → Type 0 where
  a_notification :
      (kind payload : Str)
      → IsAside (Frame.notification kind payload) (parse_notification_from_frame kind payload)
  an_info : (payload : Str) → IsAside (Frame.info payload) (info payload)
  a_prompt : IsAside Frame.password_prompt password_prompt

-- The frames of a multi-line response before its `END`, with the lines that are in it and the
-- messages of the notifications between them. A line like `>x`, without a colon, is none of it.
pub data Interleaved : List Frame → List Str → List OvpnMessage → Type 0 where
  nil : Interleaved [] [] []
  a_line :
      {fs : List Frame} {ls : List Str} {ms : List OvpnMessage} (text : Str)
      → is_malformed text ≡ false
      → Interleaved fs ls ms
      → Interleaved (Frame.line text ∷ fs) (text ∷ ls) ms
  an_aside :
      {f : Frame} {m : OvpnMessage} {fs : List Frame} {ls : List Str} {ms : List OvpnMessage}
      → IsAside f m
      → Interleaved fs ls ms
      → Interleaved (f ∷ fs) ls (m ∷ ms)

push_line-room :
    (c : OvpnCodec) (ls : List Str) (text : Str)
    → Below (length ls + 1) c.max_multi_line_lines
    → push_line c ls text ≡ (record c { multi_line_buf = some (ls ++ (text ∷ [])) }, continue)
unfolding push_line
push_line-room c ls text b = ground arith

pub prepend-append :
    (ms ns : List OvpnMessage) (r : Ran) → prepend ms (prepend ns r) ≡ prepend (ms ++ ns) r
unfolding prepend
prepend-append ms ns r = ap (λ x. record r { messages = x }) (sym (append_assoc ms ns r.messages))

pub run-line :
    (c : OvpnCodec) (text : Str) (fs : List Frame) (c' : OvpnCodec) (s : MessageStep)
    → on_line c text ≡ (c', s)
    → run c (Frame.line text ∷ fs) ≡ after_step (λ d. run d fs) (c', s)
unfolding run on_frame
run-line c text fs c' s e = ap (after_step (λ d. run d fs)) e

run-aside :
    {f : Frame} {m : OvpnMessage} (c : OvpnCodec) (fs : List Frame)
    → IsAside f m
    → run c (f ∷ fs) ≡ prepend (m ∷ []) (run c fs)
unfolding run on_frame
run-aside c fs (a_notification kind payload) = refl
run-aside c fs (an_info payload) = refl
run-aside c fs a_prompt = refl

module _ (c : OvpnCodec) where
  on_line-push :
      (q : List ResponseKind) (ls : List Str) (text : Str)
      → is_malformed text ≡ false
      → Below (length ls + 1) c.max_multi_line_lines
      → on_line (at c q (some ls)) text ≡ (at c q (some (ls ++ (text ∷ []))), continue)
  unfolding on_line
  on_line-push q ls [] m b = rw m (push_line-room (at c q (some ls)) ls [] b)
  on_line-push q ls (x ∷ text) m b = rw m (push_line-room (at c q (some ls)) ls (x ∷ text) b)

  on_line-start :
      (q : List ResponseKind) (text : Str)
      → is_malformed text ≡ false
      → on_line (at c (Response.multi_line ∷ q) none) text
        ≡ (at c (Response.multi_line ∷ q) (some (text ∷ [])), continue)
  unfolding on_line start_line expected_front front
  on_line-start q [] m = rw m
  on_line-start q (x ∷ text) m = rw m

  -- After the lines and notifications of a response, with `acc` accumulated before them.
  run-accumulating :
      (q : List ResponseKind) (acc : List Str) {fs : List Frame} {ls : List Str}
      {ms : List OvpnMessage} (rest : List Frame)
      → Interleaved fs ls ms
      → Below (length acc + length ls) c.max_multi_line_lines
      → run (at c q (some acc)) (fs ++ (Frame.end ∷ rest))
        ≡ prepend (ms ++ (multi_line (acc ++ ls) ∷ [])) (run (at c (pop_front q) none) rest)
  run-accumulating q acc rest nil b =
      rw (append-nil) (unfold run on_frame on_end consume_expected prepend in refl)
  run-accumulating q acc rest (a_line {fs} {ls} {ms} text m i) b =
      run-line (at c q (some acc)) text (fs ++ (Frame.end ∷ rest))
        (at c q (some (acc ++ (text ∷ [])))) continue
        (on_line-push q acc text m (Below-mono _ _ _ (omega arith) b))
      ∙ (run-accumulating q (acc ++ (text ∷ [])) rest i
            (rw (length-append acc (text ∷ [])) (Below-mono _ _ _ (omega arith) b))
          ∙ rw append_assoc)
  run-accumulating q acc rest (an_aside {fs = fs} a i) b =
      run-aside (at c q (some acc)) (fs ++ (Frame.end ∷ rest)) a
      ∙ (ap (prepend _) (run-accumulating q acc rest i b) ∙ prepend-append _ _ _)

  -- A response from its first line or `END` on.
  run-response :
      (q : List ResponseKind) {fs : List Frame} {ls : List Str} {ms : List OvpnMessage}
      (rest : List Frame)
      → Interleaved fs ls ms
      → Below (length ls) c.max_multi_line_lines
      → run (at c (Response.multi_line ∷ q) none) (fs ++ (Frame.end ∷ rest))
        ≡ prepend (ms ++ (multi_line ls ∷ [])) (run (at c q none) rest)
  run-response q rest nil b =
      unfold run on_frame on_end consume_expected expected_front front pop_front prepend in refl
  run-response q rest (a_line {fs} text m i) b =
      run-line (at c (Response.multi_line ∷ q) none) text (fs ++ (Frame.end ∷ rest))
        (at c (Response.multi_line ∷ q) (some (text ∷ []))) continue (on_line-start q text m)
      ∙ (run-accumulating (Response.multi_line ∷ q) (text ∷ []) rest i
            (Below-mono _ _ _ (omega arith) b)
          ∙ unfold pop_front in refl)
  run-response q rest (an_aside {fs = fs} a i) b =
      run-aside (at c (Response.multi_line ∷ q) none) (fs ++ (Frame.end ∷ rest)) a
      ∙ (ap (prepend _) (run-response q rest i b) ∙ prepend-append _ _ _)

-- A command of the kind has a reply; `exit`, `quit` and `version n` with `n < 4` have none.
abbrev pub IsAnswered : ResponseKind → Type 0
IsAnswered no_response = ⊥
IsAnswered _ = Unit

-- What the server sends for one command of a kind, and the messages it stands for; a response of
-- several lines keeps to the limit.
pub data Reply (limit : AccumulationLimit)
    : ResponseKind → List Frame → List OvpnMessage → Type 0 where
  aside :
      {k : ResponseKind} {f : Frame} {m : OvpnMessage} {fs : List Frame} {ms : List OvpnMessage}
      → IsAside f m
      → Reply limit k fs ms
      → Reply limit k (f ∷ fs) (m ∷ ms)
  succeeded :
      {k : ResponseKind} (text : Str)
      → IsAnswered k
      → Reply limit k (Frame.success text ∷ []) (success text ∷ [])
  refused :
      {k : ResponseKind} (text : Str)
      → IsAnswered k
      → Reply limit k (Frame.error text ∷ []) (error text ∷ [])
  answered :
      {fs : List Frame} {ls : List Str} {ms : List OvpnMessage}
      → Interleaved fs ls ms
      → Below (length ls) limit
      → Reply limit Response.multi_line (fs ++ (Frame.end ∷ [])) (ms ++ (multi_line ls ∷ []))

-- The replies to a row of commands, in the order of the commands.
pub data Replies (limit : AccumulationLimit)
    : List ResponseKind → List Frame → List OvpnMessage → Type 0 where
  none_left : Replies limit [] [] []
  next_reply :
      {k : ResponseKind} {ks : List ResponseKind} {fs gs : List Frame} {ms ns : List OvpnMessage}
      → Reply limit k fs ms
      → Replies limit ks gs ns
      → Replies limit (k ∷ ks) (fs ++ gs) (ms ++ ns)

module _ (c : OvpnCodec) (q : List ResponseKind) (rest : List Frame) where
  run-Reply :
      {k : ResponseKind} {fs : List Frame} {ms : List OvpnMessage}
      → Reply c.max_multi_line_lines k fs ms
      → run (at c (k ∷ q) none) (fs ++ rest) ≡ prepend ms (run (at c q none) rest)
  run-Reply {k = k} (aside {fs = fs} a r) =
      run-aside (at c (k ∷ q) none) (fs ++ rest) a
      ∙ (ap (prepend _) (run-Reply r) ∙ prepend-append _ _ _)
  run-Reply (succeeded text a) = unfold run on_frame consume_expected pop_front in refl
  run-Reply (refused text a) = unfold run on_frame consume_expected pop_front in refl
  run-Reply (answered {fs} i b) = ap (run _) (append_assoc fs _ _) ∙ run-response c q rest i b

-- Every reply is matched with the oldest command that waits, and yields its messages, whatever
-- notifications stand between the frames.
pub run-Replies :
    (c : OvpnCodec) (q : List ResponseKind) {ks : List ResponseKind} {fs : List Frame}
    {ms : List OvpnMessage} (rest : List Frame)
    → Replies c.max_multi_line_lines ks fs ms
    → run (at c (ks ++ q) none) (fs ++ rest) ≡ prepend ms (run (at c q none) rest)
run-Replies c q rest none_left = unfold prepend in refl
run-Replies c q rest (next_reply {ks = ks} {fs} {gs} r rs) =
    ap (run _) (append_assoc fs gs rest)
    ∙ (run-Reply c (ks ++ q) (gs ++ rest) r
        ∙ (ap (prepend _) (run-Replies c q rest rs) ∙ prepend-append _ _ _))

-- The whole session: nothing is left waiting.
pub run-pipeline :
    (c : OvpnCodec) {ks : List ResponseKind} {fs : List Frame} {ms : List OvpnMessage}
    → Replies c.max_multi_line_lines ks fs ms
    → run (at c ks none) fs ≡ record { codec = at c [] none; messages = ms; stopped = none }
run-pipeline c {ks} {fs} {ms} rs =
    ap (λ l. run (at c l none) fs) (sym (append-nil ks))
    ∙ (ap (run (at c (ks ++ []) none)) (sym (append-nil fs))
        ∙ (run-Replies c [] [] rs ∙ unfold run prepend in rw (append-nil ms) refl))
