-- ===== src/Frame/Decoder/Lines.antt =====
-- The frame that each kind of line becomes: `FrameDecoder::decode` reads back a frame's wire line.
use mathlib.Core.List.{tail}
use openvpn_mgmt_codec.Prelude.{
  ℕ, ◌≡◌, ◌≢◌, refl, sym, ap, ◌∙◌, true, false, [], ◌∷◌, ◌++◌, Option, none, some, arith, All,
  All-append, Lacks, Option-cases, inl, inr, ◌⊎◌,
}
use openvpn_mgmt_codec.Text.{Str, Bytes, codes, str_eq, strip_prefix, split_once, trim_end_by}
use openvpn_mgmt_codec.Text.Laws.{
  str_eq_iff, strip_prefix_sound, split_once-append, trim_end_by-append,
}
use openvpn_mgmt_codec.Text.Utf8.{
  as_bytes, from_utf8-as_bytes, as_bytes-append, as_bytes-Lacks, ascii-as_bytes, IsScalar,
}
use openvpn_mgmt_codec.Frame.Types.{
  Frame, success, error, notification, client_env, password_prompt, end, info, line,
}
use openvpn_mgmt_codec.Frame.Decoder.{
  ClientEnvAccumulator, env_line, FrameDecoder, emit, frame, pw_prompt, info_line, by_kind,
  notification_line, classify, decode_line, is_line_end, line_text, resume, decode,
}
use openvpn_mgmt_codec.Frame.Decoder.Progress.{decode-line}

-- A text that is one line on the wire: scalar values, no newline, no `\r` at the end.
abbrev pub IsLine : Str → Type 0
IsLine s = All IsScalar s × Lacks b'\n' s × (trim_end_by is_line_end s ≡ s)

-- The line that carries a frame; an ENV block takes several, and has none.
abbrev pub wire : Frame → Str
wire (success text) = codes "SUCCESS: " ++ text
wire (error text) = codes "ERROR: " ++ text
wire (notification kind payload) = b'>' ∷ (kind ++ (b':' ∷ payload))
wire (client_env event args env) = []
wire password_prompt = pw_prompt
wire end = codes "END"
wire (info text) = codes ">INFO:" ++ text
wire (line text) = text

-- A text that no frame but `Line` carries.
pub record IsOther (s : Str) : Type 0 where
  pub not_success : strip_prefix (codes "SUCCESS:") s ≡ none
  pub not_error : strip_prefix (codes "ERROR:") s ≡ none
  pub not_prompt : s ≢ pw_prompt
  pub not_end : s ≢ codes "END"
  pub not_notification : strip_prefix (codes ">") s ≡ none

-- The frames that their wire line determines, in a decoder that has seen the banner or not.
abbrev pub IsWire : FrameDecoder → Frame → Type 0
IsWire d (notification kind payload) =
    Lacks b':' kind × (kind ≢ codes "CLIENT") × ((kind ≢ codes "INFO") ⊎ (d.seen_info ≡ true))
IsWire d (client_env event args env) = ⊥
IsWire d (info text) = d.seen_info ≡ false
IsWire d (line text) = IsOther text
IsWire d _ = Unit

abbrev pub noted : FrameDecoder → Frame → FrameDecoder
noted d (info text) = record d { seen_info = true }
noted d _ = d

pub by_kind-wire :
    (d : FrameDecoder) (kind payload : Str)
    → IsWire d (notification kind payload)
    → by_kind d kind payload ≡ (d, emit (notification kind payload))
unfolding by_kind info_line
by_kind-wire d kind payload w =
    ground (arith, str_eq_iff kind (codes "INFO"), str_eq_iff kind (codes "CLIENT"))

pub notification_line-cut :
    (d : FrameDecoder) (text inner kind payload : Str)
    → split_once b':' inner ≡ some (kind, payload)
    → notification_line d text inner ≡ by_kind d kind payload
unfolding notification_line
notification_line-cut d text inner kind payload e = rw (e, notification_line)

pub by_kind_info :
    (d : FrameDecoder) (payload : Str)
    → d.seen_info ≡ false
    → by_kind d (codes "INFO") payload ≡ (record d { seen_info = true }, emit (info payload))
unfolding by_kind info_line str_eq
by_kind_info d payload e = ground arith

pub classify_notification :
    (d : FrameDecoder) (inner : Str)
    → classify d (b'>' ∷ inner) ≡ notification_line d (b'>' ∷ inner) inner
unfolding classify strip_prefix str_eq
classify_notification d inner = refl

pub classify_line : (d : FrameDecoder) (s : Str) → IsOther s → classify d s ≡ (d, emit (line s))
unfolding classify
classify_line d s o =
    rw (o.not_success, classify)
      (rw (o.not_error, classify)
        (rw (o.not_notification, classify)
          (ground
            (arith, str_eq_iff s pw_prompt, str_eq_iff s (codes "END"), o.not_prompt, o.not_end))))

classify-wire :
    (d : FrameDecoder) (f : Frame) → IsWire d f → classify d (wire f) ≡ (noted d f, emit f)
classify-wire d (success text) w = unfold classify strip_prefix in refl
classify-wire d (error text) w = unfold classify strip_prefix in refl
classify-wire d (notification kind payload) w =
    classify_notification d _
    ∙ notification_line-cut d _ _ kind payload (split_once-append b':' kind payload w.0)
    ∙ by_kind-wire d kind payload w
classify-wire d (client_env event args env) w = absurd w
classify-wire d password_prompt w = unfold classify strip_prefix str_eq in refl
classify-wire d end w = unfold classify strip_prefix str_eq in refl
classify-wire d (info text) w =
    classify_notification d _
    ∙ notification_line-cut d _ _ (codes "INFO") text
        (split_once-append b':' (codes "INFO") text (omega arith))
    ∙ by_kind_info d text w
classify-wire d (line text) w = classify_line d text w

abbrev pub env_prefix : Str
env_prefix = codes ">CLIENT:ENV,"

pub decode_line-classify :
    (d : FrameDecoder) (c : ℕ) (s : Str)
    → strip_prefix env_prefix (c ∷ s) ≡ none
    → decode_line d (c ∷ s) ≡ classify d (c ∷ s)
unfolding decode_line
decode_line-classify d c s e = by_state d.client_notification
  where
    by_state :
        (o : Option ClientEnvAccumulator)
        → (elim o [
          | none ↦ classify d (c ∷ s)
          | some accum ↦ elim (strip_prefix env_prefix (c ∷ s)) [
            | some r ↦ env_line d accum r
            | none ↦ classify d (c ∷ s)
          ]
        ])
          ≡ classify d (c ∷ s)
    by_state none = refl
    by_state (some accum) = rw e

pub decode_line_nil : (d : FrameDecoder) → decode_line d [] ≡ (d, emit (line []))
unfolding decode_line classify strip_prefix str_eq
decode_line_nil d = ground arith

-- A notification of another kind is no ENV line.
pub not_env :
    (kind payload : Str)
    → Lacks b':' kind
    → kind ≢ codes "CLIENT"
    → strip_prefix env_prefix (b'>' ∷ (kind ++ (b':' ∷ payload))) ≡ none
not_env kind payload l n =
    elim (Option-cases (strip_prefix env_prefix (b'>' ∷ (kind ++ (b':' ∷ payload))))) [
      | inl e ↦ e
      | inr (r, e) ↦
          let same = strip_prefix_sound env_prefix _ e in
          let cut : split_once b':' (kind ++ (b':' ∷ payload))
              ≡ split_once b':' (codes "CLIENT" ++ (b':' ∷ (codes "ENV," ++ r))) =
            ap (λ s. split_once b':' (tail s)) same in
          let whole : ◌≡◌ {A = Option (Str × Str)} (some (kind, payload))
              (some (codes "CLIENT", codes "ENV," ++ r)) =
            sym (split_once-append b':' kind payload l)
            ∙ cut
            ∙ split_once-append b':' (codes "CLIENT") (codes "ENV," ++ r) (omega arith) in
          absurd (n (ground arith))
    ]

pub not_env_line :
    (c : ℕ) (s : Str)
    → strip_prefix (codes ">") (c ∷ s) ≡ none
    → strip_prefix env_prefix (c ∷ s) ≡ none
unfolding strip_prefix
not_env_line c s h = ground arith

newline-IsScalar : IsScalar b'\n'
newline-IsScalar = inl (omega arith)

-- The line reaches the classification, in every state of the decoder.
decode_line-wire :
    (d : FrameDecoder) (f : Frame) → IsWire d f → decode_line d (wire f) ≡ (noted d f, emit f)
unfolding strip_prefix
decode_line-wire d (success text) w =
    decode_line-classify d _ _ refl ∙ classify-wire d (success text) w
decode_line-wire d (error text) w = decode_line-classify d _ _ refl ∙ classify-wire d (error text) w
decode_line-wire d (notification kind payload) w =
    decode_line-classify d _ _ (not_env kind payload w.0 w.1)
    ∙ classify-wire d (notification kind payload) w
decode_line-wire d (client_env event args env) w = absurd w
decode_line-wire d password_prompt w =
    decode_line-classify d _ _ refl ∙ classify-wire d password_prompt w
decode_line-wire d end w = decode_line-classify d _ _ refl ∙ classify-wire d end w
decode_line-wire d (info text) w = decode_line-classify d _ _ refl ∙ classify-wire d (info text) w
decode_line-wire d (line []) w = decode_line_nil d
decode_line-wire d (line (c ∷ s)) w =
    decode_line-classify d c s (not_env_line c s w.not_notification)
    ∙ classify-wire d (line (c ∷ s)) w

-- The bytes of a line, as they stand in the buffer.
abbrev pub line_bytes : Str → Bytes
line_bytes s = as_bytes s ++ (b'\n' ∷ [])

line_text-as_bytes : (s : Str) → IsLine s → line_text (line_bytes s) ≡ some s
unfolding line_text
line_text-as_bytes s h =
    let whole : line_bytes s ≡ as_bytes (s ++ (b'\n' ∷ [])) = sym (
      as_bytes-append s (b'\n' ∷ [])
      ∙ ap (◌++◌ (as_bytes s)) (ascii-as_bytes (b'\n' ∷ []) (omega arith))) in
    rw (whole, from_utf8-as_bytes (s ++ (b'\n' ∷ [])) (All-append _ s _ h.0 (newline-IsScalar, tt)))
      (ap some (trim_end_by-append is_line_end s b'\n' refl ∙ h.2))

-- A call on a buffer that starts with a well-formed line acts by that line.
pub decode-line_bytes :
    (d : FrameDecoder) (s : Str) (rest : Bytes)
    → IsLine s
    → decode d (as_bytes s ++ (b'\n' ∷ rest)) ≡ resume (λ d'. decode d' rest) rest (decode_line d s)
decode-line_bytes d s rest h =
    decode-line d (as_bytes s) rest (as_bytes-Lacks b'\n' s (omega arith) h.1)
    ∙ rw (line_text-as_bytes s h)

-- A frame's wire line, whatever the decoder is collecting and whatever bytes follow, is decoded
-- to that frame; the rest of the buffer is left alone, and the decoder changes only by noting
-- that the banner has been seen. So notifications and responses pass through an open ENV block.
-- The line is one line of text, and the frame is one that its line determines in that decoder.
pub decode-wire :
    (d : FrameDecoder) (f : Frame) (rest : Bytes)
    → IsLine (wire f)
    → IsWire d f
    → decode d (as_bytes (wire f) ++ (b'\n' ∷ rest))
      ≡ record { decoder = noted d f; buffer = rest; outcome = frame f }
decode-wire d f rest h w = decode-line_bytes d (wire f) rest h ∙ rw (decode_line-wire d f w)
