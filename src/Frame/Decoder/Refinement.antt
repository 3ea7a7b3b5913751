-- ===== src/Frame/Decoder/Refinement.antt =====
-- `decode_line` does exactly the steps of `Step`, in both directions.
use mathlib.Core.List.{tail}
use mathlib.Core.Path.{subst}
use openvpn_mgmt_codec.Prelude.{
  ℕ, ◌≡◌, ◌≢◌, ◌↔◌, refl, sym, ap, ◌∙◌, false, [], ◌∷◌, ◌++◌, none, some, arith, length, inl, inr,
  Lacks, Bool-cases, Option-cases,
}
use openvpn_mgmt_codec.Prelude.Options.{unwrap_or}
use openvpn_mgmt_codec.Prelude.Results.{ok, err}
use openvpn_mgmt_codec.Text.{Str, codes, str_eq, strip_prefix, split_once}
use openvpn_mgmt_codec.Text.Laws.{
  str_eq_iff, split_once-append, split_once-Lacks, strip_prefix_sound,
}
use openvpn_mgmt_codec.Frame.Types.{
  Frame, AccumulationLimit, unlimited, max, accumulation_limit_exceeded,
}
use openvpn_mgmt_codec.Frame.EnvMap.{insert}
use openvpn_mgmt_codec.Frame.Decoder.{
  ClientEnvAccumulator, FrameDecoder, LineStep, emit, continue, refuse, check_accumulation_limit,
  env_line, client_line, info_line, by_kind, notification_line, classify, after_space, decode_line,
  pw_prompt,
}
use openvpn_mgmt_codec.Frame.Decoder.Lines.{
  IsOther, env_prefix, decode_line-classify, decode_line_nil, not_env, not_env_line, classify_line,
  classify_notification, notification_line-cut, by_kind-wire,
}
use openvpn_mgmt_codec.Frame.Decoder.Steps.{
  Step, success, error, prompt, end, plain, malformed, notify, banner, later_info, address,
  open_block, entry, close_block, too_many, HasRoom, IsFull, Parts, Spaced, Outside,
}
use openvpn_mgmt_codec.Frame.Decoder.Sound.{Step-decode_line}

Parts-split_once :
    (d : ℕ) (s a b : Str) → Parts d s a b → unwrap_or (split_once d s) (s, []) ≡ (a, b)
Parts-split_once d s a b (inl (l, e)) =
    ap (λ x. unwrap_or (split_once d x) (x, [])) e
    ∙ ap (λ o. unwrap_or o (a ++ (d ∷ b), [])) (split_once-append d a b l)
Parts-split_once d s a b (inr (l, e, f)) =
    ap (λ o. unwrap_or o (s, [])) (split_once-Lacks d s l)
    ∙ (ap (λ x. (x, [])) (sym e) ∙ ap (λ x. (a, x)) (sym f))

Spaced-after_space : (r p : Str) → Spaced r p → after_space r ≡ p
Spaced-after_space r p (inl e) = rw e (unfold strip_prefix in refl)
Spaced-after_space r p (inr (e, n)) = rw n e

HasRoom-check :
    (n : ℕ) (limit : AccumulationLimit)
    → HasRoom n limit
    → check_accumulation_limit n limit "client ENV" ≡ ok tt
unfolding check_accumulation_limit
HasRoom-check n unlimited h = refl
HasRoom-check n (max m) h = ground arith

IsFull-check :
    (n : ℕ) (limit : AccumulationLimit) (m : ℕ)
    → IsFull n limit m
    → check_accumulation_limit n limit "client ENV"
      ≡ err (accumulation_limit_exceeded "client ENV" m)
unfolding check_accumulation_limit
IsFull-check n limit m (e, h) = rw e (ground arith)

false-of : (a b : Str) → a ≢ b → str_eq a b ≡ false
false-of a b n = elim (Bool-cases (str_eq a b)) [
  | inl t ↦ absurd (n ((str_eq_iff a b).0 t))
  | inr f ↦ f
]

module _ (d : FrameDecoder) where
  classify-Outside :
      (c : ℕ) (s : Str) → Outside d (c ∷ s) → decode_line d (c ∷ s) ≡ classify d (c ∷ s)
  unfolding decode_line
  classify-Outside c s (inl e) = rw e refl
  classify-Outside c s (inr n) = decode_line-classify d c s n

  client-Outside :
      (payload : Str)
      → Outside d (codes ">CLIENT:" ++ payload)
      → decode_line d (codes ">CLIENT:" ++ payload) ≡ client_line d payload
  client-Outside payload o =
      classify-Outside b'>' (codes "CLIENT:" ++ payload) o
      ∙ classify_notification d (codes "CLIENT:" ++ payload)
      ∙ notification_line-cut d _ _ (codes "CLIENT") payload
          (split_once-append b':' (codes "CLIENT") payload (omega arith))
      ∙ unfold by_kind str_eq in refl

  info-Outside :
      (payload : Str)
      → decode_line d (codes ">INFO:" ++ payload) ≡ info_line d (codes "INFO") payload
  info-Outside payload =
      decode_line-classify d b'>' (codes "INFO:" ++ payload) (unfold strip_prefix in refl)
      ∙ classify_notification d (codes "INFO:" ++ payload)
      ∙ notification_line-cut d _ _ (codes "INFO") payload
          (split_once-append b':' (codes "INFO") payload (omega arith))
      ∙ unfold by_kind str_eq in refl

  in_block :
      (accum : ClientEnvAccumulator) (r : Str)
      → d.client_notification ≡ some accum
      → decode_line d (env_prefix ++ r) ≡ env_line d accum r
  unfolding decode_line strip_prefix
  in_block accum r a = rw a refl

  not_env_malformed :
      (inner : Str) → Lacks b':' inner → strip_prefix env_prefix (b'>' ∷ inner) ≡ none
  not_env_malformed inner h = elim (Option-cases (strip_prefix env_prefix (b'>' ∷ inner))) [
    | inl e ↦ e
    | inr (r, e) ↦
        let same : inner ≡ codes "CLIENT:ENV," ++ r = ap tail (strip_prefix_sound env_prefix _ e) in
        absurd ((subst (Lacks b':') same h).1.1.1.1.1.1.0 refl)
  ]

  notification_line-Lacks :
      (text inner : Str)
      → Lacks b':' inner
      → notification_line d text inner ≡ (d, emit (Frame.line text))
  unfolding notification_line
  notification_line-Lacks text inner l = rw (split_once-Lacks b':' inner l, notification_line) refl

  decode_line-plain : (text : Str) → IsOther text → decode_line d text ≡ (d, emit (Frame.line text))
  decode_line-plain [] o = decode_line_nil d
  decode_line-plain (c ∷ s) o =
      decode_line-classify d c s (not_env_line c s o.not_notification) ∙ classify_line d (c ∷ s) o

  success_line :
      (r : Str) → decode_line d (codes "SUCCESS:" ++ r) ≡ (d, emit (Frame.success (after_space r)))
  unfolding classify strip_prefix
  success_line r = decode_line-classify d b'S' (codes "UCCESS:" ++ r) refl

  error_line :
      (r : Str) → decode_line d (codes "ERROR:" ++ r) ≡ (d, emit (Frame.error (after_space r)))
  unfolding classify strip_prefix
  error_line r = decode_line-classify d b'E' (codes "RROR:" ++ r) refl

  prompt_line : decode_line d pw_prompt ≡ (d, emit Frame.password_prompt)
  unfolding classify strip_prefix str_eq
  prompt_line = decode_line-classify d b'E' (codes "NTER PASSWORD:") refl

  end_line : decode_line d (codes "END") ≡ (d, emit Frame.end)
  unfolding classify strip_prefix str_eq
  end_line = decode_line-classify d b'E' (codes "ND") refl

  entry_fits :
      (accum : ClientEnvAccumulator) (r k v : Str)
      → r ≢ codes "END"
      → Parts b'=' r k v
      → HasRoom (length accum.env) d.max_client_env_entries
      → env_line d accum r ≡ (
        record d { client_notification = some (record accum { env = insert k v accum.env }) },
        continue,
      )
  unfolding env_line
  entry_fits accum r k v n p h =
      rw (false-of r (codes "END") n, HasRoom-check (length accum.env) d.max_client_env_entries h)
        (rw (Parts-split_once b'=' r k v p) refl)

  entry_too_many :
      (accum : ClientEnvAccumulator) (r : Str) (m : ℕ)
      → r ≢ codes "END"
      → IsFull (length accum.env) d.max_client_env_entries m
      → env_line d accum r ≡ (d, refuse (accumulation_limit_exceeded "client ENV" m))
  unfolding env_line
  entry_too_many accum r m n f =
      rw (false-of r (codes "END") n, IsFull-check (length accum.env) d.max_client_env_entries m f)
        refl

  pub decode_line-Step :
      {text : Str} {s : FrameDecoder × LineStep} → Step d text s → decode_line d text ≡ s
  decode_line-Step (success r p t e) =
      ap (decode_line d) t
      ∙ success_line r
      ∙ ap (λ x. (d, emit (Frame.success x))) (Spaced-after_space r p e)
  decode_line-Step (error r p t e) =
      ap (decode_line d) t
      ∙ error_line r
      ∙ ap (λ x. (d, emit (Frame.error x))) (Spaced-after_space r p e)
  decode_line-Step (prompt t) = ap (decode_line d) t ∙ prompt_line
  decode_line-Step (end t) = ap (decode_line d) t ∙ end_line
  decode_line-Step {text} (plain o) = decode_line-plain text o
  decode_line-Step {text} (malformed inner t l) =
      ap (decode_line d) t
      ∙ (decode_line-classify d _ _ (not_env_malformed inner l)
          ∙ classify_notification d inner
          ∙ notification_line-Lacks _ inner l
          ∙ ap (λ x. (d, emit (Frame.line x))) (sym t))
  decode_line-Step (notify kind payload t l i c) =
      ap (decode_line d) t
      ∙ (decode_line-classify d _ _ (not_env kind payload l c)
          ∙ classify_notification d _
          ∙ notification_line-cut d _ _ kind payload (split_once-append b':' kind payload l)
          ∙ by_kind-wire d kind payload (l, c, inl i))
  decode_line-Step (banner payload t n) =
      ap (decode_line d) t ∙ info-Outside payload ∙ (unfold info_line in rw n refl)
  decode_line-Step (later_info payload t s) =
      ap (decode_line d) t ∙ info-Outside payload ∙ (unfold info_line in rw s refl)
  decode_line-Step {text} (address payload args t o p) =
      ap (decode_line d) t
      ∙ client-Outside payload (rw t at o)
      ∙ (unfold client_line str_eq in rw (Parts-split_once b',' payload _ args p) refl)
  decode_line-Step {text} (open_block payload event args t o p n) =
      ap (decode_line d) t
      ∙ client-Outside payload (rw t at o)
      ∙ (unfold client_line in
          rw (Parts-split_once b',' payload event args p, false-of event (codes "ADDRESS") n) refl)
  decode_line-Step (entry accum r k v t a n p h) =
      ap (decode_line d) t ∙ in_block accum r a ∙ entry_fits accum r k v n p h
  decode_line-Step (close_block accum t a) =
      ap (decode_line d) t ∙ in_block accum (codes "END") a ∙ (unfold env_line str_eq in refl)
  decode_line-Step (too_many accum r m t a n f) =
      ap (decode_line d) t ∙ in_block accum r a ∙ entry_too_many accum r m n f

-- In every state and on every line, `decode_line` leaves the state and the result that `Step`
-- allows, and no others. `Step` says by the shape of the line and the state: which frame each
-- line is, with its exact texts; that the first `>INFO:` is the banner; that `>CLIENT:` opens a
-- block with no entries, unless it is `ADDRESS`; and that an ENV line in an open block adds its
-- entry while there is room, closes the block with its frame, or, with the block full, is
-- refused with the decoder left as it was.
pub Step-decode_line_iff :
    (d : FrameDecoder) (text : Str) (s : FrameDecoder × LineStep)
    → Step d text s ↔ (decode_line d text ≡ s)
Step-decode_line_iff d text s =
    (decode_line-Step d, λ e. subst (Step d text) e (Step-decode_line d text))
