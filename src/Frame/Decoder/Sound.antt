-- ===== src/Frame/Decoder/Sound.antt =====
-- Every line takes one of the steps of `Step` (the loop's body in `FrameDecoder::decode`).
use openvpn_mgmt_codec.Prelude.{
  ℕ, ◌≡◌, refl, Bool, true, false, [], ◌∷◌, ◌++◌, Option, none, some, if◌then◌else◌, length,
  Option-cases, inl, inr, arith, Lacks, ap, ◌∙◌,
}
use openvpn_mgmt_codec.Prelude.Options.{unwrap_or}
use openvpn_mgmt_codec.Prelude.Results.{Result, ok, err}
use openvpn_mgmt_codec.Text.{Str, codes, str_eq, is_empty, strip_prefix, split_once}
use openvpn_mgmt_codec.Text.Laws.{
  str_eq_iff, str_eq-false, strip_prefix_sound, Cut, uncut, cut_at, split_once-Cut,
}
use openvpn_mgmt_codec.Frame.Types.{
  Frame, IoError, AccumulationLimit, unlimited, max, accumulation_limit_exceeded,
}
use openvpn_mgmt_codec.Frame.Decoder.{
  ClientEnvAccumulator, FrameDecoder, LineStep, emit, check_accumulation_limit, env_line,
  client_line, info_line, by_kind, notification_line, classify, after_space, decode_line, pw_prompt,
}
use openvpn_mgmt_codec.Frame.Decoder.Lines.{IsOther, env_prefix}
use openvpn_mgmt_codec.Frame.Decoder.Steps.{
  HasRoom, IsFull, Parts, Spaced, Outside, Step, success, error, prompt, end, plain, malformed,
  notify, banner, later_info, address, open_block, entry, close_block, too_many,
}

split_once-Parts :
    (d : ℕ) (s : Str) → let cut = unwrap_or (split_once d s) (s, []) in Parts d s cut.0 cut.1
split_once-Parts d s = of (split_once d s) (split_once-Cut d s)
  where
    of :
        (o : Option (Str × Str))
        → Cut d s o
        → let cut = unwrap_or o (s, []) in Parts d s cut.0 cut.1
    of _ (uncut h) = inr (h, refl, refl)
    of _ (cut_at a b h e) = inl (h, e)

after_space-Spaced : (r : Str) → Spaced r (after_space r)
after_space-Spaced r = elim (Option-cases (strip_prefix (codes " ") r)) [
  | inl e ↦ rw e (inr (refl, refl))
  | inr (p, e) ↦ rw e (inl (strip_prefix_sound (codes " ") r e))
]

check-HasRoom :
    (n : ℕ) (limit : AccumulationLimit)
    → check_accumulation_limit n limit "client ENV" ≡ ok tt
    → HasRoom n limit
unfolding check_accumulation_limit
check-HasRoom n unlimited c = tt
check-HasRoom n (max m) c = ground arith

check-IsFull :
    (n : ℕ) (limit : AccumulationLimit) (e : IoError)
    → check_accumulation_limit n limit "client ENV" ≡ err e
    → (m : ℕ) × IsFull n limit m × (e ≡ accumulation_limit_exceeded "client ENV" m)
unfolding check_accumulation_limit
check-IsFull n unlimited e c = absurd cc
check-IsFull n (max m) e c = (m, (refl, ground arith), ground arith)

module _ (d : FrameDecoder) (text : Str) where
  Step-if :
      (b : Bool) {x y : FrameDecoder × LineStep}
      → (b ≡ true → Step d text x)
      → (b ≡ false → Step d text y)
      → Step d text (if b then x else y)
  Step-if true h k = h refl
  Step-if false h k = k refl

  Step-option :
      {A : Type 0} (o : Option A) {x : FrameDecoder × LineStep} {y : A → FrameDecoder × LineStep}
      → (o ≡ none → Step d text x)
      → ((a : A) → o ≡ some a → Step d text (y a))
      → Step d text (elim o [ none ↦ x | some a ↦ y a ])
  Step-option none h k = h refl
  Step-option (some a) h k = k a refl

  Step-result :
      (r : Result IoError (Unit {0})) {y : IoError → FrameDecoder × LineStep}
      {z : FrameDecoder × LineStep}
      → (r ≡ ok tt → Step d text z)
      → ((e : IoError) → r ≡ err e → Step d text (y e))
      → Step d text (elim r [ ok _ ↦ z | err e ↦ y e ])
  Step-result (ok tt) h k = h refl
  Step-result (err e) h k = k e refl

  Step-env_line :
      (accum : ClientEnvAccumulator) (r : Str)
      → text ≡ env_prefix ++ r
      → d.client_notification ≡ some accum
      → Step d text (env_line d accum r)
  unfolding env_line
  Step-env_line accum r t a =
      Step-if (str_eq r (codes "END"))
        (λ e. close_block accum (t ∙ ap (◌++◌ env_prefix) ((str_eq_iff r (codes "END")).0 e)) a)
        λ n.
          Step-result
            (check_accumulation_limit (length accum.env) d.max_client_env_entries "client ENV")
            (λ c.
              entry accum r _ _ t a (str_eq-false r (codes "END") n) (split_once-Parts b'=' r)
                (check-HasRoom (length accum.env) d.max_client_env_entries c))
            λ e c.
              let (m, full, same) = check-IsFull (length accum.env) d.max_client_env_entries e c in
              rw same (too_many accum r m t a (str_eq-false r (codes "END") n) full)

  Step-client_line :
      (payload : Str)
      → text ≡ codes ">CLIENT:" ++ payload
      → Outside d text
      → Step d text (client_line d payload)
  unfolding client_line
  Step-client_line payload t o =
      let cut = unwrap_or (split_once b',' payload) (payload, []) in
      let parts = split_once-Parts b',' payload in
      Step-if (str_eq cut.0 (codes "ADDRESS"))
        (λ e. address payload cut.1 t o (rw ((str_eq_iff cut.0 (codes "ADDRESS")).0 e) at parts))
        (λ n. open_block payload cut.0 cut.1 t o parts (str_eq-false cut.0 (codes "ADDRESS") n))

  Step-info_line :
      (payload : Str)
      → text ≡ codes ">INFO:" ++ payload
      → Step d text (info_line d (codes "INFO") payload)
  unfolding info_line
  Step-info_line payload t =
      Step-if d.seen_info (λ s. later_info payload t s) (λ n. banner payload t n)

  Step-kind :
      (kind payload : Str)
      → text ≡ b'>' ∷ (kind ++ (b':' ∷ payload))
      → Lacks b':' kind
      → Outside d text
      → Step d text (by_kind d kind payload)
  unfolding by_kind
  Step-kind kind payload t l o =
      Step-if (str_eq kind (codes "INFO"))
        (λ e.
          let k = (str_eq_iff kind (codes "INFO")).0 e in
          rw k (Step-info_line payload (t ∙ ap (λ x. b'>' ∷ (x ++ (b':' ∷ payload))) k)))
        λ i.
          Step-if (str_eq kind (codes "CLIENT"))
            (λ e.
              Step-client_line payload
                (t
                  ∙ ap (λ x. b'>' ∷ (x ++ (b':' ∷ payload)))
                      ((str_eq_iff kind (codes "CLIENT")).0 e))
                o)
            λ c.
              notify kind payload t l (str_eq-false kind (codes "INFO") i)
                (str_eq-false kind (codes "CLIENT") c)

  Step-notification_line :
      (inner : Str)
      → text ≡ b'>' ∷ inner
      → Outside d text
      → Step d text (notification_line d text inner)
  unfolding notification_line
  Step-notification_line inner t o = of (split_once b':' inner) (split_once-Cut b':' inner)
    where
      of :
          (cut : Option (Str × Str))
          → Cut b':' inner cut
          → Step d text (elim cut [
            | none ↦ (d, emit (Frame.line text))
            | some (kind, payload) ↦ by_kind d kind payload
          ])
      of _ (uncut h) = malformed inner t h
      of _ (cut_at kind payload h e) = Step-kind kind payload (t ∙ ap (◌∷◌ b'>') e) h o

  Step-classify : Outside d text → Step d text (classify d text)
  unfolding classify
  Step-classify o =
      Step-option (strip_prefix (codes "SUCCESS:") text)
        (λ s.
          Step-option (strip_prefix (codes "ERROR:") text)
            (λ r.
              Step-if (str_eq text pw_prompt) (λ e. prompt ((str_eq_iff text pw_prompt).0 e))
                λ p.
                  Step-if (str_eq text (codes "END"))
                    (λ e. end ((str_eq_iff text (codes "END")).0 e))
                    λ n.
                      Step-option (strip_prefix (codes ">") text)
                        (λ g. plain (record {
                          not_success = s;
                          not_error = r;
                          not_prompt = str_eq-false text pw_prompt p;
                          not_end = str_eq-false text (codes "END") n;
                          not_notification = g;
                        }))
                        (λ inner g.
                          Step-notification_line inner (strip_prefix_sound (codes ">") text g) o))
            (λ r e. error r _ (strip_prefix_sound (codes "ERROR:") text e) (after_space-Spaced r)))
        (λ r e. success r _ (strip_prefix_sound (codes "SUCCESS:") text e) (after_space-Spaced r))

empty-IsOther : (text : Str) → is_empty text ≡ true → IsOther text
unfolding strip_prefix str_eq
empty-IsOther [] e = record {
  not_success = refl;
  not_error = refl;
  not_prompt = str_eq-false [] pw_prompt refl;
  not_end = str_eq-false [] (codes "END") refl;
  not_notification = refl;
}
empty-IsOther (c ∷ s) e = absurd cc

pub Step-decode_line : (d : FrameDecoder) (text : Str) → Step d text (decode_line d text)
unfolding decode_line
Step-decode_line d text =
    Step-option d text d.client_notification
      (λ o.
        Step-if d text (is_empty text) (λ e. plain (empty-IsOther text e))
          (λ n. Step-classify d text (inl o)))
      λ accum a.
        Step-option d text (strip_prefix env_prefix text) (λ n. Step-classify d text (inr n))
          (λ r e. Step-env_line d text accum r (strip_prefix_sound env_prefix text e) a)
