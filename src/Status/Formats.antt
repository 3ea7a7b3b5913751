-- ===== src/Status/Formats.antt =====
-- The comma format and the tab format of openvpn-mgmt-codec/src/status.rs.
use openvpn_mgmt_codec.Prelude.{
  ℕ, ◌≤◌, ◌≡◌, ◌≢◌, refl, sym, ap, ◌∙◌, true, false, List, [], ◌∷◌, arith, length, drop, All,
  All-append, Lacks, ◌==◌, ◌⊎◌, inl, inr,
}
use openvpn_mgmt_codec.Prelude.Results.{Result, ok, err, ◌>>=◌}
use openvpn_mgmt_codec.Text.{Str, codes, str_eq, join, starts_with, strip_prefix, any}
use openvpn_mgmt_codec.Command.Parse.Arguments.{split}
use openvpn_mgmt_codec.Responses.Laws.{split-join}
use openvpn_mgmt_codec.Status.{StatusResponse, empty_status, detect_separator, is_tabbed}
use openvpn_mgmt_codec.Status.Tagged.{
  read_fields, read_lines, parse_status, parse_status_v2v3, is_v1,
}

-- The lines of rows of fields.
unfoldable pub lines_of : ℕ → List (List Str) → List Str
lines_of sep [] = []
lines_of sep (row ∷ rows) = join sep row ∷ lines_of sep rows

-- A line has a field, no field has a comma or a tab, and the value of a global statistic is one
-- field.
abbrev pub IsRow : List Str → Type 0
IsRow [] = ⊥
IsRow (tag ∷ cols) =
    All (Lacks b',') (tag ∷ cols)
    × All (Lacks b'\t') (tag ∷ cols)
    × (length cols ≤ 2 ⊎ (str_eq tag (codes "GLOBAL_STATS") ≡ false))

join-short : (d e : ℕ) (ss : List Str) → length ss ≤ 1 → join d ss ≡ join e ss
unfolding join
join-short d e [] h = refl
join-short d e (s ∷ []) h = refl
join-short d e (s ∷ t ∷ ss) h = absurd (omega arith)

drop-short : (cols : List Str) → length cols ≤ 2 → length (drop 1 cols) ≤ 1
drop-short [] h = omega arith
drop-short (c ∷ cols) h = omega arith

read_fields-sep :
    (status : StatusResponse) (row : List Str)
    → IsRow row
    → read_fields b',' status row ≡ read_fields b'\t' status row
unfolding read_fields
read_fields-sep status [] h = absurd h
read_fields-sep status (tag ∷ cols) (c, t, inl short) =
    rw (join-short b',' b'\t' (drop 1 cols) (drop-short cols short)) refl
read_fields-sep status (tag ∷ cols) (c, t, inr other) = rw other refl

-- The rest of the loop after a line that both formats read alike.
pub read_lines-split :
    (sep : ℕ) (status : StatusResponse) (row : List Str) (rows : List (List Str))
    → split sep (join sep row) ≡ row
    → read_lines sep status (lines_of sep (row ∷ rows))
      ≡ (read_fields sep status row >>= λ status'. read_lines sep status' (lines_of sep rows))
unfolding read_lines lines_of
read_lines-split sep status row rows e = rw e refl

pub >>=_ap :
    {E A B : Type 0} (r : Result E A) (f g : A → Result E B)
    → ((a : A) → f a ≡ g a)
    → (r >>= f) ≡ (r >>= g)
>>=_ap (ok a) f g h = h a
>>=_ap (err e) f g h = refl

read_lines-sep :
    (rows : List (List Str)) (status : StatusResponse)
    → All IsRow rows
    → read_lines b',' status (lines_of b',' rows) ≡ read_lines b'\t' status (lines_of b'\t' rows)
unfolding read_lines lines_of
read_lines-sep [] status h = refl
read_lines-sep ([] ∷ rows) status h = absurd (h.0)
read_lines-sep ((tag ∷ cols) ∷ rows) status h =
    read_lines-split b',' status (tag ∷ cols) rows (split-join b',' tag cols h.0.0)
    ∙ (ap (λ r. r >>= λ status'. read_lines b',' status' (lines_of b',' rows))
          (read_fields-sep status (tag ∷ cols) h.0)
        ∙ (>>=_ap (read_fields b'\t' status (tag ∷ cols)) _ _
              (λ status'. read_lines-sep rows status' h.1)
            ∙ sym (
                read_lines-split b'\t' status (tag ∷ cols) rows (split-join b'\t' tag cols h.0.1))))

-- A text without a character has no prefix with it.
starts_with-Lacks :
    (d : ℕ) (p s : Str) → any (λ c. c == d) p ≡ true → Lacks d s → starts_with p s ≡ false
unfolding any strip_prefix
starts_with-Lacks d [] s e h = absurd cc
starts_with-Lacks d (x ∷ p) [] e h = refl
starts_with-Lacks d (x ∷ p) (c ∷ s) e h = ground (arith, starts_with-Lacks d p s)

is_tabbed-Lacks : (line : Str) → Lacks b'\t' line → is_tabbed line ≡ false
unfolding is_tabbed any
is_tabbed-Lacks line h =
    rw
      (
        starts_with-Lacks b'\t' (codes "TITLE\t") line refl h,
        starts_with-Lacks b'\t' (codes "TIME\t") line refl h,
        starts_with-Lacks b'\t' (codes "HEADER\t") line refl h,
        starts_with-Lacks b'\t' (codes "CLIENT_LIST\t") line refl h,
        starts_with-Lacks b'\t' (codes "ROUTING_TABLE\t") line refl h,
        starts_with-Lacks b'\t' (codes "GLOBAL_STATS\t") line refl h,
      )
      refl

join-Lacks : (d e : ℕ) (ss : List Str) → d ≢ e → All (Lacks d) ss → Lacks d (join e ss)
unfolding join
join-Lacks d e [] n h = tt
join-Lacks d e (s ∷ []) n h = h.0
join-Lacks d e (s ∷ t ∷ ss) n h =
    All-append (λ c. c ≢ d) s (e ∷ join e (t ∷ ss)) h.0
      (ground arith, join-Lacks d e (t ∷ ss) n h.1)

detect_separator-comma :
    (rows : List (List Str)) → All IsRow rows → detect_separator (lines_of b',' rows) ≡ b','
unfolding detect_separator lines_of
detect_separator-comma [] h = refl
detect_separator-comma ([] ∷ rows) h = absurd (h.0)
detect_separator-comma ((tag ∷ cols) ∷ rows) h =
    rw
      (is_tabbed-Lacks (join b',' (tag ∷ cols))
        (join-Lacks b'\t' b',' (tag ∷ cols) (omega arith) h.0.1))
      (detect_separator-comma rows h.1)

-- With its title line, either format is told from the first one, and the tabs are seen.
detect_separator-tab :
    (text : Str) (cols : List Str) (rows : List (List Str))
    → detect_separator (lines_of b'\t' ((codes "TITLE" ∷ text ∷ cols) ∷ rows)) ≡ b'\t'
unfolding detect_separator lines_of is_tabbed strip_prefix join
detect_separator-tab text cols rows = refl

is_v1-title :
    (sep : ℕ) (text : Str) (cols : List Str) (rows : List (List Str))
    → is_v1 (lines_of sep ((codes "TITLE" ∷ text ∷ cols) ∷ rows)) ≡ false
unfolding lines_of is_v1 join str_eq
is_v1-title sep text cols rows = refl

pub parse_status-comma :
    (text : Str) (cols : List Str) (rows : List (List Str))
    → All IsRow ((codes "TITLE" ∷ text ∷ cols) ∷ rows)
    → parse_status (lines_of b',' ((codes "TITLE" ∷ text ∷ cols) ∷ rows))
      ≡ read_lines b',' empty_status (lines_of b',' ((codes "TITLE" ∷ text ∷ cols) ∷ rows))
unfolding parse_status parse_status_v2v3
parse_status-comma text cols rows h =
    rw
      (
        is_v1-title b',' text cols rows,
        detect_separator-comma ((codes "TITLE" ∷ text ∷ cols) ∷ rows) h,
      )
      refl

-- Rows of fields, the first with the tag `TITLE`, give the same result in the comma and in the
-- tab format, a status or an error: `parse_status` tells the two formats apart. No field has a
-- comma or a tab, and a row of global statistics has at most three fields.
pub parse_status-lines_of :
    (text : Str) (cols : List Str) (rows : List (List Str))
    → All IsRow ((codes "TITLE" ∷ text ∷ cols) ∷ rows)
    → parse_status (lines_of b',' ((codes "TITLE" ∷ text ∷ cols) ∷ rows))
      ≡ parse_status (lines_of b'\t' ((codes "TITLE" ∷ text ∷ cols) ∷ rows))
unfolding parse_status parse_status_v2v3
parse_status-lines_of text cols rows h =
    let all = (codes "TITLE" ∷ text ∷ cols) ∷ rows in
    rw
      (
        is_v1-title b',' text cols rows,
        is_v1-title b'\t' text cols rows,
        detect_separator-tab text cols rows,
        detect_separator-comma all h,
      )
      (read_lines-sep all empty_status h)
