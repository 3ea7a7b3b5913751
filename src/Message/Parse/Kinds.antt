-- ===== src/Message/Parse/Kinds.antt =====
-- Which notification a `>` line of a kind becomes (`parse_notification_from_frame` of
-- openvpn-mgmt-codec/src/codec.rs).
use openvpn_mgmt_codec.Prelude.{
  ℕ, ◌≡◌, refl, sym, ap, ◌∙◌, Bool, true, false, ◌||◌, Option, none, some, if◌then◌else◌,
}
use openvpn_mgmt_codec.Prelude.Options.{◌>>=◌, unwrap_or}
use openvpn_mgmt_codec.Text.{
  Str, codes, str_eq, is_empty, strip_prefix, strip_suffix, split_once, split_once_str, splitn,
  next, rest, trim,
}
use openvpn_mgmt_codec.Text.Decimal.{max_u16, max_u32, max_u64}
use openvpn_mgmt_codec.Message.Types.{
  Notification, client, client_address, state, byte_count, byte_count_cli, log, echo, hold, fatal,
  pkcs11_id_count, need_ok, need_str, rsa_sign, pk_sign, info_msg, need_certificate, info, remote,
  proxy, password, simple, OvpnMessage, notification, pkcs11_id_entry,
}
use openvpn_mgmt_codec.Message.Parse.Fields.{
  parse_field, parse_state, parse_bytecount, parse_bytecount_cli, parse_log, parse_echo,
  parse_pkcs11id_count, parse_pkcs11id_entry_notif, parse_need_ok, parse_need_str, parse_pk_sign,
  parse_remote, parse_proxy,
}
use openvpn_mgmt_codec.Message.Parse.Password.{
  parse_password_notification, parse_password, parse_client_line,
}

-- The kinds whose notification holds the payload as it is: there is nothing to refuse.
unfoldable pub is_bare : Str → Bool
is_bare kind =
    str_eq kind (codes "HOLD")
    || str_eq kind (codes "FATAL")
    || str_eq kind (codes "RSA_SIGN")
    || str_eq kind (codes "INFOMSG")
    || str_eq kind (codes "NEED-CERTIFICATE")
    || str_eq kind (codes "INFO")

module _ (kind payload : Str) where
  -- The notification is one that lines of the kind stand for; `simple` holds the line itself.
  abbrev pub HasKind : Notification → Type 0
  HasKind (client event cid kid env) = ⊥
  HasKind (client_address cid addr primary) = kind ≡ codes "CLIENT"
  HasKind (state e) = kind ≡ codes "STATE"
  HasKind (byte_count i o) = kind ≡ codes "BYTECOUNT"
  HasKind (byte_count_cli cid i o) = kind ≡ codes "BYTECOUNT_CLI"
  HasKind (log time level text) = kind ≡ codes "LOG"
  HasKind (echo time text) = kind ≡ codes "ECHO"
  HasKind (hold text) = (kind ≡ codes "HOLD") × (text ≡ payload)
  HasKind (fatal text) = (kind ≡ codes "FATAL") × (text ≡ payload)
  HasKind (pkcs11_id_count count) = kind ≡ codes "PKCS11ID-COUNT"
  HasKind (need_ok name text) = kind ≡ codes "NEED-OK"
  HasKind (need_str name text) = kind ≡ codes "NEED-STR"
  HasKind (rsa_sign text) = (kind ≡ codes "RSA_SIGN") × (text ≡ payload)
  HasKind (pk_sign text algorithm) = kind ≡ codes "PK_SIGN"
  HasKind (info_msg text) = (kind ≡ codes "INFOMSG") × (text ≡ payload)
  HasKind (need_certificate text) = (kind ≡ codes "NEED-CERTIFICATE") × (text ≡ payload)
  HasKind (info text) = (kind ≡ codes "INFO") × (text ≡ payload)
  HasKind (remote host port protocol) = kind ≡ codes "REMOTE"
  HasKind (proxy index protocol host) = kind ≡ codes "PROXY"
  HasKind (password n) = kind ≡ codes "PASSWORD"
  HasKind (simple k p) = (k ≡ kind) × (p ≡ payload) × (is_bare kind ≡ false)

  abbrev pub MessageHasKind : OvpnMessage → Type 0
  MessageHasKind (notification n) = HasKind n
  MessageHasKind (pkcs11_id_entry number id blob) = kind ≡ codes "PKCS11ID-ENTRY"
  MessageHasKind _ = ⊥

  -- A parser's result; a kind that a parser can refuse is not a bare one.
  pub data Parses {A : Type 0} (P : A → Type 0) : Option A → Type 0 where
    refuses : is_bare kind ≡ false → Parses P none
    gives : (a : A) → P a → Parses P (some a)

  bind-Parses :
      {A B : Type 0} {P : B → Type 0} (o : Option A) {f : A → Option B}
      → is_bare kind ≡ false
      → ((a : A) → Parses P (f a))
      → Parses P (o >>= f)
  bind-Parses none b h = refuses b
  bind-Parses (some a) b h = h a

  pub Parses-if :
      {A : Type 0} {P : A → Type 0} (b : Bool) {x y : Option A}
      → (b ≡ true → Parses P x)
      → (b ≡ false → Parses P y)
      → Parses P (if b then x else y)
  Parses-if true h k = h refl
  Parses-if false h k = k refl

  pub MessageHasKind-if :
      (b : Bool) (x y : OvpnMessage)
      → (b ≡ true → MessageHasKind x)
      → (b ≡ false → MessageHasKind y)
      → MessageHasKind (if b then x else y)
  MessageHasKind-if true x y h k = h refl
  MessageHasKind-if false x y h k = k refl

  pub unwrap_or-HasKind :
      (o : Option Notification) → Parses HasKind o → HasKind (unwrap_or o (simple kind payload))
  unwrap_or-HasKind _ (refuses h) = (refl, refl, h)
  unwrap_or-HasKind _ (gives n h) = h

  pub unwrap_or-MessageHasKind :
      (o : Option OvpnMessage)
      → Parses MessageHasKind o
      → MessageHasKind (unwrap_or o (notification (simple kind payload)))
  unwrap_or-MessageHasKind _ (refuses h) = (refl, refl, h)
  unwrap_or-MessageHasKind _ (gives m h) = h

  not_bare : (k : Str) → is_bare k ≡ false → kind ≡ k → is_bare kind ≡ false
  not_bare k b e = ap is_bare e ∙ b

  pub state-HasKind : kind ≡ codes "STATE" → Parses HasKind (parse_state payload)
  unfolding parse_state
  state-HasKind e =
      let b = not_bare (codes "STATE") (unfold is_bare str_eq in refl) e in
      bind-Parses (next (splitn 9 b',' payload)) b λ t. bind-Parses (parse_field max_u64 t) b λ _.
        bind-Parses (next (rest (splitn 9 b',' payload))) b λ _.
          bind-Parses (next (rest (rest (splitn 9 b',' payload)))) b λ _.
            bind-Parses (next (rest (rest (rest (splitn 9 b',' payload))))) b λ _.
              bind-Parses (next (rest (rest (rest (rest (splitn 9 b',' payload)))))) b
                λ _. gives _ e

  pub byte_count-HasKind : kind ≡ codes "BYTECOUNT" → Parses HasKind (parse_bytecount payload)
  unfolding parse_bytecount
  byte_count-HasKind e =
      let b = not_bare (codes "BYTECOUNT") (unfold is_bare str_eq in refl) e in
      bind-Parses (split_once b',' payload) b λ cut.
        bind-Parses (parse_field max_u64 cut.0) b
          λ _. bind-Parses (parse_field max_u64 cut.1) b λ _. gives _ e

  pub byte_count_cli-HasKind :
      kind ≡ codes "BYTECOUNT_CLI" → Parses HasKind (parse_bytecount_cli payload)
  unfolding parse_bytecount_cli
  byte_count_cli-HasKind e =
      let b = not_bare (codes "BYTECOUNT_CLI") (unfold is_bare str_eq in refl) e in
      bind-Parses (next (splitn 3 b',' payload)) b λ t. bind-Parses (parse_field max_u64 t) b λ _.
        bind-Parses (next (rest (splitn 3 b',' payload))) b λ i.
          bind-Parses (parse_field max_u64 i) b λ _.
            bind-Parses (next (rest (rest (splitn 3 b',' payload)))) b
              λ o. bind-Parses (parse_field max_u64 o) b λ _. gives _ e

  pub log-HasKind : kind ≡ codes "LOG" → Parses HasKind (parse_log payload)
  unfolding parse_log
  log-HasKind e =
      let b = not_bare (codes "LOG") (unfold is_bare str_eq in refl) e in
      bind-Parses (split_once b',' payload) b λ cut.
        bind-Parses (parse_field max_u64 cut.0) b
          λ _. bind-Parses (split_once b',' cut.1) b λ _. gives _ e

  pub echo-HasKind : kind ≡ codes "ECHO" → Parses HasKind (parse_echo payload)
  unfolding parse_echo
  echo-HasKind e =
      let b = not_bare (codes "ECHO") (unfold is_bare str_eq in refl) e in
      bind-Parses (split_once b',' payload) b
        λ cut. bind-Parses (parse_field max_u64 cut.0) b λ _. gives _ e

  pub pkcs11_id_count-HasKind :
      kind ≡ codes "PKCS11ID-COUNT" → Parses HasKind (parse_pkcs11id_count payload)
  unfolding parse_pkcs11id_count
  pkcs11_id_count-HasKind e =
      let b = not_bare (codes "PKCS11ID-COUNT") (unfold is_bare str_eq in refl) e in
      bind-Parses (parse_field max_u32 (trim payload)) b λ _. gives _ e

  pub pkcs11_id_entry-HasKind :
      kind ≡ codes "PKCS11ID-ENTRY" → Parses MessageHasKind (parse_pkcs11id_entry_notif payload)
  unfolding parse_pkcs11id_entry_notif
  pkcs11_id_entry-HasKind e =
      let b = not_bare (codes "PKCS11ID-ENTRY") (unfold is_bare str_eq in refl) e in
      bind-Parses (strip_prefix (codes "'") payload) b λ quoted.
        bind-Parses (split_once_str (codes "', ID:'") quoted) b λ index.
          bind-Parses (split_once_str (codes "', BLOB:'") index.1) b
            λ id. bind-Parses (strip_suffix (codes "'") id.1) b λ _. gives _ e

  pub need_ok-HasKind : kind ≡ codes "NEED-OK" → Parses HasKind (parse_need_ok payload)
  unfolding parse_need_ok
  need_ok-HasKind e =
      let b = not_bare (codes "NEED-OK") (unfold is_bare str_eq in refl) e in
      bind-Parses (strip_prefix (codes "Need '") payload) b λ behind.
        bind-Parses (split_once b'\'' behind) b
          λ name. bind-Parses (split_once_str (codes "MSG:") name.1) b λ _. gives _ e

  pub need_str-HasKind : kind ≡ codes "NEED-STR" → Parses HasKind (parse_need_str payload)
  unfolding parse_need_str
  need_str-HasKind e =
      let b = not_bare (codes "NEED-STR") (unfold is_bare str_eq in refl) e in
      bind-Parses (strip_prefix (codes "Need '") payload) b λ behind.
        bind-Parses (split_once b'\'' behind) b
          λ name. bind-Parses (split_once_str (codes "MSG:") name.1) b λ _. gives _ e

  pub remote-HasKind : kind ≡ codes "REMOTE" → Parses HasKind (parse_remote payload)
  unfolding parse_remote
  remote-HasKind e =
      let b = not_bare (codes "REMOTE") (unfold is_bare str_eq in refl) e in
      bind-Parses (next (splitn 3 b',' payload)) b λ _.
        bind-Parses (next (rest (splitn 3 b',' payload))) b λ p.
          bind-Parses (parse_field max_u16 p) b
            λ _. bind-Parses (next (rest (rest (splitn 3 b',' payload)))) b λ _. gives _ e

  pub proxy-HasKind : kind ≡ codes "PROXY" → Parses HasKind (parse_proxy payload)
  unfolding parse_proxy
  proxy-HasKind e =
      let b = not_bare (codes "PROXY") (unfold is_bare str_eq in refl) e in
      bind-Parses (next (splitn 3 b',' payload)) b λ p. bind-Parses (parse_field max_u32 p) b λ _.
        bind-Parses (next (rest (splitn 3 b',' payload))) b
          λ _. bind-Parses (next (rest (rest (splitn 3 b',' payload)))) b λ _. gives _ e

  pub password-HasKind : kind ≡ codes "PASSWORD" → Parses HasKind (parse_password payload)
  password-HasKind e =
      bind-Parses (parse_password_notification payload)
        (not_bare (codes "PASSWORD") (unfold is_bare str_eq in refl) e) λ _. gives _ e

  cut-Parses :
      (o : Option (Str × Str)) {f : Str × Str → Option Notification} {y : Option Notification}
      → Parses HasKind y
      → ((cut : Str × Str) → Parses HasKind (f cut))
      → Parses HasKind (elim o [ some (d, a) ↦ f (d, a) | none ↦ y ])
  cut-Parses none h k = h
  cut-Parses (some (d, a)) h k = k (d, a)

  pub pk_sign-HasKind : kind ≡ codes "PK_SIGN" → Parses HasKind (parse_pk_sign payload)
  unfolding parse_pk_sign
  pk_sign-HasKind e =
      Parses-if (is_empty payload)
        (λ _. refuses (not_bare (codes "PK_SIGN") (unfold is_bare str_eq in refl) e))
        λ _.
          cut-Parses (split_once b',' payload) (gives _ e)
            (λ cut. gives (pk_sign cut.0 (some cut.1)) e)

  pub client_line-HasKind : kind ≡ codes "CLIENT" → HasKind (parse_client_line payload)
  unfolding parse_client_line
  client_line-HasKind e = of _ _ _ _ e
    where
      of :
          (b : Bool) (cid : ℕ) (addr : Str) (primary : Bool)
          → kind ≡ codes "CLIENT"
          → HasKind (if b then client_address cid addr primary else simple (codes "CLIENT") payload)
      of true cid addr primary e = e
      of false cid addr primary e =
          (sym e, refl, not_bare (codes "CLIENT") (unfold is_bare str_eq in refl) e)
