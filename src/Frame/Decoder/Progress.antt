-- ===== src/Frame/Decoder/Progress.antt =====
-- `FrameDecoder::decode` always returns, and what a call takes from the buffer.
use openvpn_mgmt_codec.Prelude.{
  ℕ, zero, suc, ◌<◌, ◌≡◌, refl, sym, ap, ◌∙◌, [], ◌∷◌, ◌++◌, append_assoc, Option, none, some,
  arith, ◌==◌, length, Lacks, length-append, Bool-cases, Option-cases, inl, inr,
}
use openvpn_mgmt_codec.Text.{Str, Bytes, strip_prefix}
use openvpn_mgmt_codec.Text.Laws.{strip_prefix_sound}
use openvpn_mgmt_codec.Frame.Decoder.{
  FrameDecoder, LineStep, emit, continue, refuse, Decoded, Outcome, frame, pending, failed,
  out_of_fuel, position, decode_line, decode_partial, pw_prompt, skip_cr, line_text, resume, round,
  decode_loop, decode,
}
use openvpn_mgmt_codec.Frame.Decoder.Rounds.{
  no_line, line_at, Cut-of, decode_loop-line, decode_loop_partial,
}

-- How a call ends that leaves `buffer` of `src`: the outcome is no `out_of_fuel`, `pending` leaves
-- no newline in the buffer, and any other outcome has taken at least one byte.
abbrev pub Ends : Bytes → Bytes → Outcome → Type 0
Ends src buffer (frame f) = length buffer < length src
Ends src buffer pending = Lacks b'\n' buffer
Ends src buffer (failed e) = length buffer < length src
Ends src buffer out_of_fuel = ⊥

-- What the call took is a front part of the buffer.
pub record Took (src : Bytes) (r : Decoded) : Type 0 where
  pub taken : Bytes
  pub splits : src ≡ taken ++ r.buffer
  pub ends : Ends src r.buffer r.outcome

skip_cr_split : (s : Bytes) → (t : Bytes) × (s ≡ t ++ skip_cr s)
skip_cr_split [] = ([], refl)
skip_cr_split (b ∷ s) = elim (Bool-cases (b == b'\r')) [
  | inl e ↦ (b ∷ [], rw e)
  | inr n ↦ ([], rw n)
]

decode_partial-Took :
    (d : FrameDecoder) (src : Bytes) → Lacks b'\n' src → Took src (decode_partial d src)
unfolding decode_partial
decode_partial-Took d src l = elim (Option-cases (strip_prefix pw_prompt src)) [
  | inl e ↦ rw (e, decode_partial) (record { taken = []; splits = refl; ends = l })
  | inr (behind, e) ↦
      let (cr, s) = skip_cr_split behind in
      let whole : src ≡ (pw_prompt ++ cr) ++ skip_cr behind =
        strip_prefix_sound pw_prompt src e
        ∙ ap (◌++◌ pw_prompt) s
        ∙ sym (append_assoc pw_prompt cr _) in
      rw (e, decode_partial)
        (record {
          taken = pw_prompt ++ cr;
          splits = whole;
          ends = omega (
            arith,
            ap (length {0}) whole,
            length-append pw_prompt cr,
            length-append (pw_prompt ++ cr) (skip_cr behind),
          );
        })
]

module _ (before behind : Bytes) where
  abbrev pub Line : Bytes
  Line = before ++ (b'\n' ∷ behind)

  pub behind-lt : length behind < length Line
  behind-lt = omega (arith, length-append before (b'\n' ∷ behind))

  Line-split : Line ≡ (before ++ (b'\n' ∷ [])) ++ behind
  Line-split = sym (append_assoc before (b'\n' ∷ []) behind)

  Ends-Line : (buffer : Bytes) (o : Outcome) → Ends behind buffer o → Ends Line buffer o
  Ends-Line buffer (frame f) h = omega (arith, behind-lt)
  Ends-Line buffer pending h = h
  Ends-Line buffer (failed e) h = omega (arith, behind-lt)
  Ends-Line buffer out_of_fuel h = h

  Took-later : {r : Decoded} → Took behind r → Took Line r
  Took-later {r} t = record {
    taken = (before ++ (b'\n' ∷ [])) ++ t.taken;
    splits =
        Line-split
        ∙ ap (◌++◌ (before ++ (b'\n' ∷ []))) t.splits
        ∙ sym (append_assoc (before ++ (b'\n' ∷ [])) t.taken r.buffer);
    ends = Ends-Line r.buffer r.outcome t.ends;
  }

  resume-Took :
      (again : FrameDecoder → Decoded) (s : FrameDecoder × LineStep)
      → ((d : FrameDecoder) → Took behind (again d))
      → Took Line (resume again behind s)
  resume-Took again (d, emit f) h = record {
    taken = before ++ (b'\n' ∷ []);
    splits = Line-split;
    ends = behind-lt;
  }
  resume-Took again (d, continue) h = Took-later (h d)
  resume-Took again (d, refuse e) h = record {
    taken = before ++ (b'\n' ∷ []);
    splits = Line-split;
    ends = behind-lt;
  }

  round-Took :
      (again : FrameDecoder → Decoded) (d : FrameDecoder) (text : Option Str)
      → ((d' : FrameDecoder) → Took behind (again d'))
      → Took Line (round again d text behind)
  round-Took again d none h = record {
    taken = before ++ (b'\n' ∷ []);
    splits = Line-split;
    ends = behind-lt;
  }
  round-Took again d (some text) h = resume-Took again (decode_line d text) h

decode_loop-Took :
    (fuel : ℕ) (d : FrameDecoder) (src : Bytes)
    → length src < fuel
    → Took src (decode_loop fuel d src)
decode_loop-Took zero d src h = absurd (omega arith)
decode_loop-Took (suc fuel) d src h = elim (Cut-of src) [
  | no_line e l ↦ rw (decode_loop_partial fuel d src e) (decode_partial-Took d src l)
  | line_at before behind e l ↦
      rw (e, decode_loop-line fuel d before behind l)
        (round-Took before behind _ d (line_text (before ++ (b'\n' ∷ []))) λ d'.
          decode_loop-Took fuel d' behind
            (omega (arith, ap (length {0}) e, behind-lt before behind)))
]

-- A call of `FrameDecoder::decode` always returns, on every buffer and in every state: it never
-- runs out of rounds. What it takes is a front part of the buffer; after `Ok(None)` no complete
-- line is left, and after a frame or an error the buffer is strictly shorter.
pub decode-Took : (d : FrameDecoder) (src : Bytes) → Took src (decode d src)
unfolding decode
decode-Took d src = decode_loop-Took (suc (length src)) d src (omega arith)

resume_cong :
    (again again' : FrameDecoder → Decoded) (src : Bytes) (s : FrameDecoder × LineStep)
    → ((d : FrameDecoder) → again d ≡ again' d)
    → resume again src s ≡ resume again' src s
resume_cong again again' src (d, emit f) h = refl
resume_cong again again' src (d, continue) h = h d
resume_cong again again' src (d, refuse e) h = refl

round_cong :
    (again again' : FrameDecoder → Decoded) (d : FrameDecoder) (text : Option Str) (src : Bytes)
    → ((d' : FrameDecoder) → again d' ≡ again' d')
    → round again d text src ≡ round again' d text src
round_cong again again' d none src h = refl
round_cong again again' d (some text) src h = resume_cong again again' src (decode_line d text) h

-- More rounds than the buffer has bytes change nothing.
pub decode_loop_fuel :
    (f g : ℕ) (d : FrameDecoder) (src : Bytes)
    → length src < f
    → length src < g
    → decode_loop f d src ≡ decode_loop g d src
decode_loop_fuel zero g d src h k = absurd (omega arith)
decode_loop_fuel (suc f) zero d src h k = absurd (omega arith)
decode_loop_fuel (suc f) (suc g) d src h k = elim (Cut-of src) [
  | no_line e l ↦ decode_loop_partial f d src e ∙ sym (decode_loop_partial g d src e)
  | line_at before behind e l ↦
      let lt = behind-lt before behind in
      rw e (
        decode_loop-line f d before behind l
        ∙ round_cong _ _ d (line_text (before ++ (b'\n' ∷ []))) behind (λ d'.
          decode_loop_fuel f g d' behind (omega (arith, ap (length {0}) e, lt))
            (omega (arith, ap (length {0}) e, lt)))
        ∙ sym (decode_loop-line g d before behind l))
]

-- `decode` on a buffer that starts with a complete line.
pub decode-line :
    (d : FrameDecoder) (before behind : Bytes)
    → Lacks b'\n' before
    → decode d (before ++ (b'\n' ∷ behind))
      ≡ round (λ d'. decode d' behind) d (line_text (before ++ (b'\n' ∷ []))) behind
unfolding decode
decode-line d before behind l =
    decode_loop-line _ d before behind l
    ∙ round_cong _ _ d (line_text (before ++ (b'\n' ∷ []))) behind (λ d'.
      decode_loop_fuel (length (before ++ (b'\n' ∷ behind))) (suc (length behind)) d' behind
        (omega (arith, behind-lt before behind)) (omega arith))

pub decode_no_line :
    (d : FrameDecoder) (src : Bytes)
    → position b'\n' src ≡ none
    → decode d src ≡ decode_partial d src
unfolding decode
decode_no_line d src e = decode_loop_partial _ d src e
