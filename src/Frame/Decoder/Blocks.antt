-- ===== src/Frame/Decoder/Blocks.antt =====
-- A whole `>CLIENT:` block, from its header to `>CLIENT:ENV,END`, becomes one frame.
use Prim.Native.String.{String}
use openvpn_mgmt_codec.Prelude.{
  ℕ, ◌+◌, ◌≡◌, ◌≢◌, refl, ap, ◌∙◌, false, List, [], ◌∷◌, ◌++◌, none, some, arith, length, Lacks,
  All, inl, inr, Bool-cases,
}
use openvpn_mgmt_codec.Prelude.Results.{ok}
use openvpn_mgmt_codec.Text.{Str, Bytes, codes, str_eq, strip_prefix, split_once, trim_end_by}
use openvpn_mgmt_codec.Text.Laws.{str_eq_iff, split_once-append, split_once-Lacks}
use openvpn_mgmt_codec.Text.Utf8.{as_bytes}
use openvpn_mgmt_codec.Frame.EnvMap.{EnvMap, insert, length-insert}
use openvpn_mgmt_codec.Frame.Types.{client_env, AccumulationLimit, unlimited, max}
use openvpn_mgmt_codec.Frame.Decoder.{
  FrameDecoder, emit, continue, frame, Decoded, check_accumulation_limit, env_line, client_line,
  by_kind, classify, decode_line, decode,
}
use openvpn_mgmt_codec.Frame.Decoder.Limits.{Below, Below-mono}
use openvpn_mgmt_codec.Frame.Decoder.Lines.{
  IsLine, decode-line_bytes, classify_notification, notification_line-cut,
}

abbrev pub header_line : Str → Str → Str
header_line event args = codes ">CLIENT:" ++ (event ++ (b',' ∷ args))

abbrev pub entry_line : Str × Str → Str
entry_line (k, v) = codes ">CLIENT:ENV," ++ (k ++ (b'=' ∷ v))

abbrev pub end_line : Str
end_line = codes ">CLIENT:ENV,END"

-- The bytes of the entries and the end of a block, before `rest`.
abbrev pub entries_bytes : List (Str × Str) → Bytes → Bytes
entries_bytes [] rest = as_bytes end_line ++ (b'\n' ∷ rest)
entries_bytes (e ∷ es) rest = as_bytes (entry_line e) ++ (b'\n' ∷ entries_bytes es rest)

abbrev pub block_bytes : Str → Str → List (Str × Str) → Bytes → Bytes
block_bytes event args es rest =
    as_bytes (header_line event args) ++ (b'\n' ∷ entries_bytes es rest)

-- The entries in the order of their lines: a later one replaces an earlier one of the same key.
pub collect : EnvMap → List (Str × Str) → EnvMap
collect env [] = env
collect env ((k, v) ∷ es) = collect (insert k v env) es

abbrev pub IsEntry : Str × Str → Type 0
IsEntry e = IsLine (entry_line e) × Lacks b'=' e.0

-- The decoder while a block is open.
abbrev opened : FrameDecoder → Str → Str → EnvMap → FrameDecoder
opened d event args env = record d {
  client_notification = some (record { event = event; args = args; env = env });
}

decode_line_env :
    (d : FrameDecoder) (event args : Str) (env : EnvMap) (text : Str)
    → decode_line (opened d event args env) (codes ">CLIENT:ENV," ++ text)
      ≡ env_line (opened d event args env) (record { event = event; args = args; env = env }) text
unfolding decode_line strip_prefix
decode_line_env d event args env text = refl

check_passes :
    (n : ℕ) (limit : AccumulationLimit) (what : String)
    → Below (n + 1) limit
    → check_accumulation_limit n limit what ≡ ok tt
unfolding check_accumulation_limit
check_passes n unlimited what b = refl
check_passes n (max m) what b = ground arith

entry-ne-end : (k v : Str) → Lacks b'=' k → str_eq (k ++ (b'=' ∷ v)) (codes "END") ≡ false
entry-ne-end k v l = elim (Bool-cases (str_eq (k ++ (b'=' ∷ v)) (codes "END"))) [
  | inr n ↦ n
  | inl e ↦
      let cut = ap (split_once b'=') ((str_eq_iff (k ++ (b'=' ∷ v)) (codes "END")).0 e) in
      cc (split_once-append b'=' k v l, cut, split_once-Lacks b'=' (codes "END") (omega arith))
]

env_line_entry :
    (d : FrameDecoder) (event args : Str) (env : EnvMap) (k v : Str)
    → Lacks b'=' k
    → Below (length env + 1) d.max_client_env_entries
    → env_line
        (opened d event args env)
        (record { event = event; args = args; env = env })
        (k ++ (b'=' ∷ v))
      ≡ (opened d event args (insert k v env), continue)
unfolding env_line
env_line_entry d event args env k v l b =
    rw (entry-ne-end k v l, check_passes (length env) d.max_client_env_entries "client ENV" b)
      (rw (split_once-append b'=' k v l))

env_line_end :
    (d : FrameDecoder) (event args : Str) (env : EnvMap)
    → env_line
        (opened d event args env)
        (record { event = event; args = args; env = env })
        (codes "END")
      ≡ (record d { client_notification = none }, emit (client_env event args env))
unfolding env_line str_eq
env_line_end d event args env = refl

-- What a complete block leaves.
abbrev pub closed : FrameDecoder → Str → Str → EnvMap → Bytes → Decoded
closed d event args env rest = record {
  decoder = record d { client_notification = none };
  buffer = rest;
  outcome = frame (client_env event args env);
}

end_IsLine : IsLine end_line
unfolding trim_end_by
end_IsLine = ground arith

module _ (d : FrameDecoder) (event args : Str) where
  decode-entries :
      (env : EnvMap) (es : List (Str × Str)) (rest : Bytes)
      → All IsEntry es
      → Below (length env + length es) d.max_client_env_entries
      → decode (opened d event args env) (entries_bytes es rest)
        ≡ closed d event args (collect env es) rest
  unfolding collect
  decode-entries env [] rest h b =
      decode-line_bytes (opened d event args env) end_line rest end_IsLine
      ∙ rw (decode_line_env d event args env (codes "END"), env_line_end d event args env)
  decode-entries env ((k, v) ∷ es) rest h b =
      decode-line_bytes (opened d event args env) (entry_line (k, v)) (entries_bytes es rest)
        (h.0.0)
      ∙ rw (decode_line_env d event args env (k ++ (b'=' ∷ v))) (
          rw (env_line_entry d event args env k v h.0.1 (Below-mono _ _ _ (omega arith) b)) (
            decode-entries (insert k v env) es rest h.1
              (Below-mono _ _ _ (omega (arith, length-insert k v env)) b)))

  by_kind_client : (payload : Str) → by_kind d (codes "CLIENT") payload ≡ client_line d payload
  unfolding by_kind str_eq
  by_kind_client payload = refl

  client_line_open :
      Lacks b',' event
      → event ≢ codes "ADDRESS"
      → client_line d (event ++ (b',' ∷ args)) ≡ (opened d event args [], continue)
  unfolding client_line
  client_line_open l n =
      rw (split_once-append b',' event args l) (ground (arith, str_eq_iff event (codes "ADDRESS")))

  header-classified :
      Lacks b',' event
      → event ≢ codes "ADDRESS"
      → classify d (header_line event args) ≡ (opened d event args [], continue)
  header-classified l n =
      classify_notification d (codes "CLIENT:" ++ (event ++ (b',' ∷ args)))
      ∙ notification_line-cut d _ _ (codes "CLIENT") (event ++ (b',' ∷ args))
          (split_once-append b':' (codes "CLIENT") (event ++ (b',' ∷ args)) (omega arith))
      ∙ by_kind_client _
      ∙ client_line_open l n

  not_collecting :
      (c : ℕ) (s : Str) → d.client_notification ≡ none → decode_line d (c ∷ s) ≡ classify d (c ∷ s)
  unfolding decode_line
  not_collecting c s e = ground arith

  -- Outside a block, a block of any number of entries within the limit, its header first and
  -- its end last, is decoded to one `ClientEnv` frame with the header's event and arguments and
  -- the entries' keys and values; the decoder is then outside the block, and the rest of the
  -- buffer is intact. The event has no comma and is not `ADDRESS`, a key has no `=`, and each
  -- line is one line of text.
  pub decode_block :
      (es : List (Str × Str)) (rest : Bytes)
      → d.client_notification ≡ none
      → IsLine (header_line event args)
      → Lacks b',' event
      → event ≢ codes "ADDRESS"
      → All IsEntry es
      → Below (length es) d.max_client_env_entries
      → decode d (block_bytes event args es rest) ≡ closed d event args (collect [] es) rest
  decode_block es rest o h l n entries b =
      decode-line_bytes d (header_line event args) (entries_bytes es rest) h
      ∙ rw (not_collecting _ _ o ∙ header-classified l n)
          (decode-entries [] es rest entries (Below-mono _ _ _ (omega arith) b))
