-- ===== src/Frame/Decoder/Steps.antt =====
-- What a line does to a `FrameDecoder`, as a step relation: each step has the shape of its lines
-- and the condition on the state written out, without the tests of the code.
use openvpn_mgmt_codec.Prelude.{
  ℕ, ◌<◌, ◌≤◌, ◌≡◌, ◌≢◌, ◌⊎◌, true, false, [], ◌∷◌, ◌++◌, none, some, length, Lacks,
}
use openvpn_mgmt_codec.Text.{Str, codes, strip_prefix}
use openvpn_mgmt_codec.Frame.EnvMap.{insert}
use openvpn_mgmt_codec.Frame.Types.{
  Frame, notification, client_env, password_prompt, info, AccumulationLimit, unlimited, max,
  accumulation_limit_exceeded,
}
use openvpn_mgmt_codec.Frame.Decoder.{
  ClientEnvAccumulator, FrameDecoder, LineStep, emit, continue, refuse, pw_prompt,
}
use openvpn_mgmt_codec.Frame.Decoder.Lines.{IsOther, env_prefix}

-- One more entry fits, or none does.
abbrev pub HasRoom : ℕ → AccumulationLimit → Type 0
HasRoom n unlimited = Unit
HasRoom n (max m) = n < m

abbrev pub IsFull : ℕ → AccumulationLimit → ℕ → Type 0
IsFull n limit m = (limit ≡ max m) × (m ≤ n)

-- `a` and `b` are the text before and behind its first delimiter; without one, all and nothing.
abbrev pub Parts : ℕ → Str → Str → Str → Type 0
Parts d s a b = (Lacks d a × (s ≡ a ++ (d ∷ b))) ⊎ (Lacks d s × (a ≡ s) × (b ≡ []))

-- The text behind one space, if there is one.
abbrev pub Spaced : Str → Str → Type 0
Spaced r p = (r ≡ b' ' ∷ p) ⊎ ((r ≡ p) × (strip_prefix (codes " ") r ≡ none))

-- The line is no ENV line of an open block.
abbrev pub Outside : FrameDecoder → Str → Type 0
Outside d text = (d.client_notification ≡ none) ⊎ (strip_prefix env_prefix text ≡ none)

pub data Step (d : FrameDecoder) (text : Str) : FrameDecoder × LineStep → Type 0 where
  success :
      (r p : Str)
      → text ≡ codes "SUCCESS:" ++ r
      → Spaced r p
      → Step d text (d, emit (Frame.success p))
  error :
      (r p : Str) → text ≡ codes "ERROR:" ++ r → Spaced r p → Step d text (d, emit (Frame.error p))
  prompt : text ≡ pw_prompt → Step d text (d, emit password_prompt)
  end : text ≡ codes "END" → Step d text (d, emit Frame.end)
  plain : IsOther text → Step d text (d, emit (Frame.line text))
  malformed :
      (inner : Str)
      → text ≡ b'>' ∷ inner
      → Lacks b':' inner
      → Step d text (d, emit (Frame.line text))
  notify :
      (kind payload : Str)
      → text ≡ b'>' ∷ (kind ++ (b':' ∷ payload))
      → Lacks b':' kind
      → kind ≢ codes "INFO"
      → kind ≢ codes "CLIENT"
      → Step d text (d, emit (notification kind payload))
  banner :
      (payload : Str)
      → text ≡ codes ">INFO:" ++ payload
      → d.seen_info ≡ false
      → Step d text (record d { seen_info = true }, emit (info payload))
  later_info :
      (payload : Str)
      → text ≡ codes ">INFO:" ++ payload
      → d.seen_info ≡ true
      → Step d text (d, emit (notification (codes "INFO") payload))
  address :
      (payload args : Str)
      → text ≡ codes ">CLIENT:" ++ payload
      → Outside d text
      → Parts b',' payload (codes "ADDRESS") args
      → Step d text (d, emit (notification (codes "CLIENT") payload))
  open_block :
      (payload event args : Str)
      → text ≡ codes ">CLIENT:" ++ payload
      → Outside d text
      → Parts b',' payload event args
      → event ≢ codes "ADDRESS"
      → Step d text (
        record d { client_notification = some (record { event = event; args = args; env = [] }) },
        continue,
      )
  entry :
      (accum : ClientEnvAccumulator) (r k v : Str)
      → text ≡ env_prefix ++ r
      → d.client_notification ≡ some accum
      → r ≢ codes "END"
      → Parts b'=' r k v
      → HasRoom (length accum.env) d.max_client_env_entries
      → Step d text (
        record d { client_notification = some (record accum { env = insert k v accum.env }) },
        continue,
      )
  close_block :
      (accum : ClientEnvAccumulator)
      → text ≡ env_prefix ++ codes "END"
      → d.client_notification ≡ some accum
      → Step d text (
        record d { client_notification = none },
        emit (client_env accum.event accum.args accum.env),
      )
  too_many :
      (accum : ClientEnvAccumulator) (r : Str) (m : ℕ)
      → text ≡ env_prefix ++ r
      → d.client_notification ≡ some accum
      → r ≢ codes "END"
      → IsFull (length accum.env) d.max_client_env_entries m
      → Step d text (d, refuse (accumulation_limit_exceeded "client ENV" m))
