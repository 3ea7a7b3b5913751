-- ===== src/Message/Parse/Dispatch.antt =====
-- The dispatch of `parse_notification_from_frame` (openvpn-mgmt-codec/src/codec.rs) on the kind.
use openvpn_mgmt_codec.Prelude.{◌≡◌, refl, true, false}
use openvpn_mgmt_codec.Text.{Str, codes, str_eq}
use openvpn_mgmt_codec.Text.Laws.{str_eq_iff}
use openvpn_mgmt_codec.Message.Parse.Password.{parse_kind, parse_notification_from_frame}
use openvpn_mgmt_codec.Message.Parse.Kinds.{
  is_bare, state-HasKind, byte_count-HasKind, byte_count_cli-HasKind, log-HasKind, echo-HasKind,
  pkcs11_id_count-HasKind, pkcs11_id_entry-HasKind, need_ok-HasKind, need_str-HasKind,
  remote-HasKind, proxy-HasKind, password-HasKind, pk_sign-HasKind, client_line-HasKind, Parses-if,
  MessageHasKind-if, unwrap_or-HasKind, unwrap_or-MessageHasKind, MessageHasKind, HasKind, Parses,
  refuses, gives,
}

module _ (kind payload : Str) where
  none_of :
      str_eq kind (codes "HOLD") ≡ false
      → str_eq kind (codes "FATAL") ≡ false
      → str_eq kind (codes "RSA_SIGN") ≡ false
      → str_eq kind (codes "INFOMSG") ≡ false
      → str_eq kind (codes "NEED-CERTIFICATE") ≡ false
      → str_eq kind (codes "INFO") ≡ false
      → is_bare kind ≡ false
  unfolding is_bare
  none_of h f r m c i = rw (h, f, r, m, c, i) refl

  is : (k : Str) → str_eq kind k ≡ true → kind ≡ k
  is k t = (str_eq_iff kind k).0 t

  parse_kind-HasKind :
      str_eq kind (codes "INFO") ≡ false
      → Parses kind payload (HasKind kind payload) (parse_kind kind payload)
  unfolding parse_kind
  parse_kind-HasKind i =
      Parses-if kind payload (str_eq kind (codes "STATE"))
        (λ t. state-HasKind kind payload (is _ t))
        λ _.
          Parses-if kind payload (str_eq kind (codes "BYTECOUNT"))
            (λ t. byte_count-HasKind kind payload (is _ t))
            λ _.
              Parses-if kind payload (str_eq kind (codes "BYTECOUNT_CLI"))
                (λ t. byte_count_cli-HasKind kind payload (is _ t))
                λ _.
                  Parses-if kind payload (str_eq kind (codes "LOG"))
                    (λ t. log-HasKind kind payload (is _ t))
                    λ _.
                      Parses-if kind payload (str_eq kind (codes "ECHO"))
                        (λ t. echo-HasKind kind payload (is _ t))
                        λ _.
                          Parses-if kind payload (str_eq kind (codes "HOLD"))
                            (λ t. gives _ (is _ t, refl))
                            λ h.
                              Parses-if kind payload (str_eq kind (codes "FATAL"))
                                (λ t. gives _ (is _ t, refl))
                                λ f.
                                  Parses-if kind payload (str_eq kind (codes "PKCS11ID-COUNT"))
                                    (λ t. pkcs11_id_count-HasKind kind payload (is _ t))
                                    λ _.
                                      Parses-if kind payload (str_eq kind (codes "NEED-OK"))
                                        (λ t. need_ok-HasKind kind payload (is _ t))
                                        λ _.
                                          Parses-if kind payload (str_eq kind (codes "NEED-STR"))
                                            (λ t. need_str-HasKind kind payload (is _ t))
                                            λ _.
                                              Parses-if kind payload
                                                (str_eq kind (codes "RSA_SIGN"))
                                                (λ t. gives _ (is _ t, refl))
                                                λ r.
                                                  Parses-if kind payload
                                                    (str_eq kind (codes "PK_SIGN"))
                                                    (λ t. pk_sign-HasKind kind payload (is _ t))
                                                    λ _.
                                                      Parses-if kind payload
                                                        (str_eq kind (codes "INFOMSG"))
                                                        (λ t. gives _ (is _ t, refl))
                                                        λ m.
                                                          Parses-if kind payload
                                                            (str_eq kind (codes "NEED-CERTIFICATE"))
                                                            (λ t. gives _ (is _ t, refl))
                                                            λ c.
                                                            Parses-if kind payload
                                                            (str_eq kind (codes "REMOTE"))
                                                            (λ t.
                                                            remote-HasKind kind payload (is _ t))
                                                            λ _.
                                                            Parses-if kind payload
                                                            (str_eq kind (codes "PROXY"))
                                                            (λ t.
                                                            proxy-HasKind kind payload (is _ t))
                                                            λ _.
                                                            Parses-if kind payload
                                                            (str_eq kind (codes "PASSWORD"))
                                                            (λ t.
                                                            password-HasKind kind payload (is _ t))
                                                            λ _. refuses (none_of h f r m c i)

  -- For every kind and payload, `parse_notification_from_frame` gives a notification or a
  -- PKCS#11 entry whose constructor is the one of that kind, or `simple` with this kind and
  -- payload. `HOLD`, `FATAL`, `RSA_SIGN`, `INFOMSG`, `NEED-CERTIFICATE` and `INFO` always give
  -- their own constructor, with the payload as it is.
  pub parse_notification_from_frame-MessageHasKind :
      MessageHasKind kind payload (parse_notification_from_frame kind payload)
  unfolding parse_notification_from_frame
  parse_notification_from_frame-MessageHasKind =
      MessageHasKind-if kind payload (str_eq kind (codes "CLIENT")) _ _
        (λ t. client_line-HasKind kind payload (is _ t))
        λ _.
          MessageHasKind-if kind payload (str_eq kind (codes "INFO")) _ _ (λ t. (is _ t, refl))
            λ i.
              MessageHasKind-if kind payload (str_eq kind (codes "PKCS11ID-ENTRY")) _ _
                (λ t.
                  unwrap_or-MessageHasKind kind payload _
                    (pkcs11_id_entry-HasKind kind payload (is _ t)))
                λ _. unwrap_or-HasKind kind payload _ (parse_kind-HasKind i)
