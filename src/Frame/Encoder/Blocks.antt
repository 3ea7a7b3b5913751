-- ===== src/Frame/Encoder/Blocks.antt =====
-- What `write_block` puts on the wire, read back line by line.
use openvpn_mgmt_codec.Prelude.{
  ◌≡◌, ◌≢◌, refl, ap, ◌∙◌, true, false, List, [], ◌∷◌, ◌++◌, append-nil, append_assoc, arith, ◌==◌,
  if◌then◌else◌, All, All-append, Lacks, ◌⊎◌, inl, inr, Bool-cases,
}
use mathlib.Core.List.{map}
use openvpn_mgmt_codec.Prelude.Results.{ok, err}
use openvpn_mgmt_codec.Text.{Str, Bytes, codes, str_eq, any}
use openvpn_mgmt_codec.Text.Laws.{str_eq_iff}
use openvpn_mgmt_codec.Text.Utf8.{as_bytes, as_bytes-Lacks, as_bytes_ascii}
use openvpn_mgmt_codec.Frame.Types.{sanitize, strict, IoError, unsafe_characters, end_in_block_body}
use openvpn_mgmt_codec.Frame.Encoder.{
  wire_unsafe, without_unsafe, wire_safe, write_body, write_block,
}
use openvpn_mgmt_codec.Frame.Encoder.Lines.{
  IsClean, IsClean-Lacks_newline, without_unsafe-IsClean, wire_safe-sanitize, wire_safe_of_clean,
}

-- The lines of a buffer that ends in a newline.
abbrev pub end_line : Str
end_line = codes "END"

-- The lines, each with its newline.
pub unlines : List Bytes → Bytes
unlines [] = []
unlines (l ∷ ls) = l ++ (b'\n' ∷ unlines ls)

-- A reader of the peer: the lines of a buffer, the last one closed by the end of the buffer.
pub lines_from : Bytes → Bytes → List Bytes
lines_from cur [] = []
lines_from cur (b ∷ s) = elim (b == b'\n') [
  | true ↦ cur ∷ lines_from [] s
  | false ↦ lines_from (cur ++ (b ∷ [])) s
]

-- The peer takes the lines of a block up to the first `END`.
pub read_block : List Bytes → List Bytes
read_block [] = []
read_block (l ∷ ls) = let more = l ∷ read_block ls in if str_eq l end_line then [] else more

-- What a body line becomes in `Sanitize` mode.
pub body_line : Str → Str
body_line s = if str_eq (without_unsafe s) end_line then codes " END" else without_unsafe s

lines_from-append :
    (cur l s : Bytes) → Lacks b'\n' l → lines_from cur (l ++ s) ≡ lines_from (cur ++ l) s
unfolding lines_from
lines_from-append cur [] s h = rw append-nil
lines_from-append cur (b ∷ l) s h =
    ground (arith, lines_from-append (cur ++ (b ∷ [])) l s h.1, append_assoc cur (b ∷ []) l)

lines_from_newline : (cur s : Bytes) → lines_from cur (b'\n' ∷ s) ≡ cur ∷ lines_from [] s
unfolding lines_from
lines_from_newline cur s = refl

pub lines_from-unlines : (ls : List Bytes) → All (Lacks b'\n') ls → lines_from [] (unlines ls) ≡ ls
unfolding unlines
lines_from-unlines [] h = unfold lines_from in refl
lines_from-unlines (l ∷ ls) h =
    lines_from-append [] l _ h.0 ∙ lines_from_newline l _ ∙ ap (◌∷◌ l) (lines_from-unlines ls h.1)

pub unlines-append : (ks ls : List Bytes) → unlines (ks ++ ls) ≡ unlines ks ++ unlines ls
unfolding unlines
unlines-append [] ls = refl
unlines-append (k ∷ ks) ls = simp (unlines-append ks, append_assoc)

-- The lines that `write_block` writes in `Sanitize` mode, without the header.
abbrev pub body_bytes : List Str → List Bytes
body_bytes lines = map (λ s. as_bytes (body_line s)) lines

write_body_step :
    (dst : Bytes) (l : Str) (ls : List Str)
    → write_body dst (l ∷ ls) sanitize
      ≡ write_body (dst ++ (as_bytes (body_line l) ++ (b'\n' ∷ []))) ls sanitize
unfolding write_body body_line
write_body_step dst l ls = ground (arith, wire_safe-sanitize l "block body line")

write_body-sanitize :
    (dst : Bytes) (lines : List Str)
    → write_body dst lines sanitize ≡ (dst ++ unlines (body_bytes lines), ok tt)
unfolding unlines
write_body-sanitize dst [] = rw append-nil (unfold write_body in refl)
write_body-sanitize dst (l ∷ ls) =
    let dst' = dst ++ (as_bytes (body_line l) ++ (b'\n' ∷ [])) in
    write_body_step dst l ls ∙ rw (write_body-sanitize dst' ls) (simp append_assoc)

body_line-IsClean : (s : Str) → IsClean (body_line s)
unfolding body_line wire_unsafe
body_line-IsClean s = elim (Bool-cases (str_eq (without_unsafe s) end_line)) [
  | inl e ↦ rw e (ground arith)
  | inr n ↦ rw n (without_unsafe-IsClean s)
]

body_line-ne-end : (s : Str) → body_line s ≢ end_line
unfolding body_line
body_line-ne-end s e = ground (arith, str_eq_iff (without_unsafe s) end_line)

body_bytes-Lacks : (ls : List Str) → All (Lacks b'\n') (body_bytes ls)
body_bytes-Lacks [] = tt
body_bytes-Lacks (l ∷ ls) = (
  as_bytes-Lacks b'\n' (body_line l) (omega arith)
      (IsClean-Lacks_newline (body_line l) (body_line-IsClean l)),
  body_bytes-Lacks ls,
)

body_bytes-ne-end : (s : Str) → str_eq (as_bytes (body_line s)) end_line ≡ false
body_bytes-ne-end s = elim (Bool-cases (str_eq (as_bytes (body_line s)) end_line)) [
  | inl e ↦ absurd (
      body_line-ne-end s
        (as_bytes_ascii (body_line s) end_line (omega arith) ((str_eq_iff _ end_line).0 e)))
  | inr n ↦ n
]

read_block-body :
    (ls : List Str) (more : List Bytes)
    → read_block (body_bytes ls ++ (end_line ∷ more)) ≡ body_bytes ls
unfolding read_block str_eq
read_block-body [] more = refl
read_block-body (l ∷ ls) more =
    rw (body_bytes-ne-end l) (ap (◌∷◌ (as_bytes (body_line l))) (read_block-body ls more))

pub write_block-sanitize :
    (dst : Bytes) (header : Str) (lines : List Str)
    → write_block dst header lines sanitize
      ≡ (dst ++ unlines (as_bytes header ∷ (body_bytes lines ++ (end_line ∷ []))), ok tt)
unfolding write_block unlines
write_block-sanitize dst header lines =
    rw (write_body-sanitize _ lines, unlines-append (body_bytes lines) (end_line ∷ []))
      (simp append_assoc)

-- With a header that has no newline, `write_block` in `Sanitize` mode succeeds on every body;
-- what it appends to the buffer is, split at the newlines, the header, the cleaned body lines
-- and `END`; and a peer that takes lines up to the first `END` gets exactly the cleaned body:
-- no body line ends the block early or adds a line.
pub write_block_framing :
    (dst : Bytes) (header : Str) (lines : List Str)
    → Lacks b'\n' header
    → (out : Bytes) × (write_block dst header lines sanitize ≡ (dst ++ out, ok tt))
      × (lines_from [] out ≡ as_bytes header ∷ (body_bytes lines ++ (end_line ∷ [])))
      × (read_block (body_bytes lines ++ (end_line ∷ [])) ≡ body_bytes lines)
write_block_framing dst header lines h = (
  unlines (as_bytes header ∷ (body_bytes lines ++ (end_line ∷ []))),
  write_block-sanitize dst header lines,
  lines_from-unlines _ (
    as_bytes-Lacks b'\n' header (omega arith) h,
    All-append _ (body_bytes lines) (end_line ∷ []) (body_bytes-Lacks lines) (omega arith),
  ),
  read_block-body lines [],
)

-- A body line that `Strict` mode takes.
abbrev pub IsBodyLine : Str → Type 0
IsBodyLine s = IsClean s × (s ≢ end_line)

write_body_strict_step :
    (dst : Bytes) (l : Str) (ls : List Str)
    → IsBodyLine l
    → write_body dst (l ∷ ls) strict ≡ write_body (dst ++ (as_bytes l ++ (b'\n' ∷ []))) ls strict
unfolding write_body
write_body_strict_step dst l ls h =
    ground (arith, wire_safe_of_clean l "block body line" strict h.0, str_eq_iff l end_line)

-- In `Strict` mode a body whose first lines `good` are fine is written up to them, before the
-- rest of the body is looked at.
pub write_body-strict :
    (dst : Bytes) (good rest : List Str)
    → All IsBodyLine good
    → write_body dst (good ++ rest) strict
      ≡ write_body (dst ++ unlines (map as_bytes good)) rest strict
unfolding unlines
write_body-strict dst [] rest h = rw append-nil
write_body-strict dst (l ∷ ls) rest h =
    let dst' = dst ++ (as_bytes l ++ (b'\n' ∷ [])) in
    write_body_strict_step dst l (ls ++ rest) h.0
    ∙ rw (write_body-strict dst' ls rest h.1) (simp append_assoc)

-- In `Strict` mode a body of fine lines, clean and none of them `END`, is written verbatim,
-- between the header and `END`.
pub write_block-strict :
    (dst : Bytes) (header : Str) (lines : List Str)
    → All IsBodyLine lines
    → write_block dst header lines strict
      ≡ (dst ++ unlines (as_bytes header ∷ (map as_bytes lines ++ (end_line ∷ []))), ok tt)
unfolding write_block unlines write_body
write_block-strict dst header lines h =
    let dst' = dst ++ (as_bytes header ++ (b'\n' ∷ [])) in
    let e = write_body-strict dst' lines [] h in
    rw (← append-nil lines) (
      rw e (
        rw (append-nil lines, unlines-append (map as_bytes lines) (end_line ∷ []))
          (simp append_assoc)))

-- The error that a line which is not fine raises in `Strict` mode.
pub bad_line : Str → IoError
bad_line s = if any wire_unsafe s then unsafe_characters "block body line" else end_in_block_body

end_is_clean : any wire_unsafe end_line ≡ false
unfolding any wire_unsafe
end_is_clean = refl

write_body_strict_bad :
    (dst : Bytes) (l : Str) (ls : List Str)
    → (any wire_unsafe l ≡ true) ⊎ (l ≡ end_line)
    → write_body dst (l ∷ ls) strict ≡ (dst, err (bad_line l))
unfolding write_body bad_line wire_safe
write_body_strict_bad dst l ls h = ground (arith, str_eq_iff l end_line, end_is_clean)

-- In `Strict` mode a body line with `\n`, `\r` or `\0`, or equal to `END`, behind lines that
-- are fine, makes `write_block` fail, and the header and the lines before it stay in the buffer
-- with no `END` behind them.
pub write_block_strict_partial :
    (dst : Bytes) (header : Str) (good more : List Str) (bad : Str)
    → All IsBodyLine good
    → (any wire_unsafe bad ≡ true) ⊎ (bad ≡ end_line)
    → write_block dst header (good ++ (bad ∷ more)) strict
      ≡ (dst ++ unlines (as_bytes header ∷ map as_bytes good), err (bad_line bad))
unfolding write_block unlines
write_block_strict_partial dst header good more bad h b =
    rw (write_body-strict _ good (bad ∷ more) h, write_body_strict_bad _ bad more b)
      (simp append_assoc)
