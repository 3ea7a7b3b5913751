-- ===== src/Session/Unexpected.antt =====
-- Answers that the methods of openvpn-mgmt-codec/src/session.rs do not expect, from the bytes on.
use mathlib.Core.Path.{subst}
use openvpn_mgmt_codec.Prelude.{
  ℕ, suc, ◌+◌, ◌<◌, ◌≡◌, refl, sym, ap, ◌∙◌, true, false, List, [], ◌∷◌, ◌++◌, length, none, some,
  All, Lacks, arith,
}
use openvpn_mgmt_codec.Prelude.Results.{ok, err}
use openvpn_mgmt_codec.Text.{Str, Bytes, codes, str_eq}
use openvpn_mgmt_codec.Text.Laws.{strip_prefix-append, str_eq-false}
use openvpn_mgmt_codec.Crv1.Laws.{split_once_str-append, strip_suffix-append}
use openvpn_mgmt_codec.Frame.Types.{Frame}
use openvpn_mgmt_codec.Frame.Decoder.Lines.{IsLine, wire}
use openvpn_mgmt_codec.Command.Types as Command
use openvpn_mgmt_codec.Command.Response.{expected_response}
use openvpn_mgmt_codec.Message.Types.{OvpnMessage, pkcs11_id_entry, info}
use openvpn_mgmt_codec.Message.Parse.{parse_notification_from_frame}
use openvpn_mgmt_codec.Message.Parse.Fields.{parse_pkcs11id_entry_notif}
use openvpn_mgmt_codec.Codec.State.{OvpnCodec}
use openvpn_mgmt_codec.Codec.Decode.{on_frame}
use openvpn_mgmt_codec.Codec.Decode.Responses.{Reply, Ran, run, prepend}
use openvpn_mgmt_codec.Codec.Decode.Polls.{
  polls, wires, IsReadable, IsReadable-notification, polls-wires, polls-info, greeted,
}
use openvpn_mgmt_codec.Codec.Encode.{encode}
use openvpn_mgmt_codec.Codec.Pipeline.{encode_all, waiting}
use openvpn_mgmt_codec.Session.{event_from}
use openvpn_mgmt_codec.Session.Await.{Transport, EventStream, done, unexpected_response}
use openvpn_mgmt_codec.Session.Queries.{version, pkcs11_id_get}
use openvpn_mgmt_codec.Session.Laws as Laws
use openvpn_mgmt_codec.Session.Replies.{
  read_on, send_expect_success-Exchange, send_expect_multi_line-Exchange,
}
use openvpn_mgmt_codec.Session.Wires.{Gives, polls-Reply}

-- `'number', ID:'id', BLOB:'blob'`
unfoldable pub entry_payload : Str → Str → Str → Str
entry_payload number id blob =
    codes "'" ++ (number ++ (codes "', ID:'" ++ (id ++ (codes "', BLOB:'" ++ (blob ++ codes "'")))))

abbrev pub entry_frame : Str → Str → Str → Frame
entry_frame number id blob =
    Frame.notification (codes "PKCS11ID-ENTRY") (entry_payload number id blob)

parse_entry :
    (number id blob : Str)
    → Lacks b'\'' number
    → Lacks b'\'' id
    → parse_pkcs11id_entry_notif (entry_payload number id blob)
      ≡ some (pkcs11_id_entry number id blob)
unfolding parse_pkcs11id_entry_notif entry_payload
parse_entry number id blob n i =
    let tail : Str = id ++ (codes "', BLOB:'" ++ (blob ++ codes "'")) in
    rw (strip_prefix-append (codes "'") (number ++ (codes "', ID:'" ++ tail))) (
      rw (split_once_str-append b'\'' (codes ", ID:'") number tail n) (
        rw (split_once_str-append b'\'' (codes ", BLOB:'") id (blob ++ codes "'") i)
          (rw (strip_suffix-append (codes "'") blob) refl)))

entry_message :
    (number id blob : Str)
    → Lacks b'\'' number
    → Lacks b'\'' id
    → parse_notification_from_frame (codes "PKCS11ID-ENTRY") (entry_payload number id blob)
      ≡ pkcs11_id_entry number id blob
unfolding parse_notification_from_frame str_eq
entry_message number id blob n i = rw (parse_entry number id blob n i) refl

run-notification :
    (c : OvpnCodec) (kind payload : Str)
    → (run c (Frame.notification kind payload ∷ [])).messages
      ≡ parse_notification_from_frame kind payload ∷ []
unfolding run on_frame prepend
run-notification c kind payload = refl

module _ (base64 : Bytes → Str) (c : OvpnCodec) (dst : Bytes) (q : c.expected_queue ≡ [])
    (b : c.multi_line_buf ≡ none) where
  pub polls-entry :
      (index : ℕ) (number id blob : Str)
      → c.frame_decoder.seen_info ≡ true
      → IsLine (wire (entry_frame number id blob))
      → Lacks b'\'' number
      → Lacks b'\'' id
      → (polls
          (length (wires (entry_frame number id blob ∷ [])) + 1)
          (encode_all base64 c ((Command.pkcs11_id_get index, dst) ∷ []))
          (wires (entry_frame number id blob ∷ []))).messages
        ≡ pkcs11_id_entry number id blob ∷ []
  polls-entry index number id blob i l hn hi =
      let f = entry_frame number id blob in
      let readable : All IsReadable (f ∷ []) = (
        IsReadable-notification (codes "PKCS11ID-ENTRY") (entry_payload number id blob) l
            (omega arith)
            (str_eq-false (codes "PKCS11ID-ENTRY") (codes "CLIENT") (unfold str_eq in refl)),
        tt,
      ) in
      rw (waiting base64 c ((Command.pkcs11_id_get index, dst) ∷ []) q b) (
        ap (λ r. r.messages)
          (polls-wires c.frame_decoder (f ∷ []) _ _ i readable (omega arith) refl)
        ∙ run-notification _ (codes "PKCS11ID-ENTRY") (entry_payload number id blob)
        ∙ ap (λ m. m ∷ []) (entry_message number id blob hn hi))

  version_waits : OvpnCodec → OvpnCodec
  version_waits d = encode_all base64 d ((Command.version, dst) ∷ [])

  version_waits-seen_info :
      c.frame_decoder.seen_info ≡ false → (version_waits c).frame_decoder.seen_info ≡ false
  unfolding version_waits encode_all encode
  version_waits-seen_info i = i

  version_waits-greeted : greeted (version_waits c) ≡ version_waits (greeted c)
  unfolding version_waits encode_all encode
  version_waits-greeted = refl

  prepend-messages : (m : OvpnMessage) (r : Ran) → (prepend (m ∷ []) r).messages ≡ m ∷ r.messages
  unfolding prepend
  prepend-messages m r = refl

  -- On a new connection the banner comes before the reply to `version`.
  pub polls-version :
      (banner : Str) {fs : List Frame} {ms : List OvpnMessage}
      → c.frame_decoder.seen_info ≡ false
      → IsLine (wire (Frame.info banner))
      → All IsReadable fs
      → Reply c.max_multi_line_lines (expected_response Command.version) fs ms
      → (polls
          (suc (length (wires fs) + 1))
          (encode_all base64 c ((Command.version, dst) ∷ []))
          (wires (Frame.info banner ∷ fs))).messages
        ≡ info banner ∷ ms
  unfolding wires version_waits
  polls-version banner {fs} {ms} i l r reply =
      let fuel = length (wires fs) + 1 in
      ap (λ ran. ran.messages)
        (polls-info (version_waits c) banner (wires fs) fuel (version_waits-seen_info i) l)
      ∙ prepend-messages (info banner) (polls fuel (greeted (version_waits c)) (wires fs))
      ∙ ap (λ d. info banner ∷ (polls fuel d (wires fs)).messages) version_waits-greeted
      ∙ ap (◌∷◌ (info banner)) (polls-Reply base64 (greeted c) Command.version dst q b refl r reply)

module _ {L E : Type 0} (T : Transport L E) (base64 : Bytes → Str) (c : OvpnCodec) (dst : Bytes)
    (fuel : ℕ) (s : EventStream L) (sent_to l' : L) (q : c.expected_queue ≡ [])
    (b : c.multi_line_buf ≡ none) (positive : 0 < fuel) where
  open T use {send, next}

  -- A codec that has seen the banner, waits for no response and has nothing accumulated encodes
  -- `pkcs11-id-get`, and the session sends it. The connection gives the messages that polling
  -- the codec yields on the bytes of the line `>PKCS11ID-ENTRY:'number', ID:'id', BLOB:'blob'`,
  -- with no `'` in the number and the id. With fuel, `pkcs11_id_get` then fails with this entry
  -- as an unexpected response.
  pub pkcs11_id_get-pkcs11_id_entry :
      (index : ℕ) (number id blob : Str)
      → c.frame_decoder.seen_info ≡ true
      → IsLine (wire (entry_frame number id blob))
      → Lacks b'\'' number
      → Lacks b'\'' id
      → send s.inner (Command.pkcs11_id_get index) ≡ (sent_to, ok tt)
      → Gives T sent_to
          (polls
            (length (wires (entry_frame number id blob ∷ [])) + 1)
            (encode_all base64 c ((Command.pkcs11_id_get index, dst) ∷ []))
            (wires (entry_frame number id blob ∷ []))).messages
          l'
      → pkcs11_id_get T fuel index s
        ≡ (read_on s [] l', done (err (unexpected_response (pkcs11_id_entry number id blob))))
  unfolding pkcs11_id_get event_from
  pkcs11_id_get-pkcs11_id_entry index number id blob i l hn hi e g =
      let (k, h, f) =
        subst (λ ms. Gives T sent_to ms l')
          (polls-entry base64 c dst q b index number id blob i l hn hi) g in
      send_expect_success-Exchange T fuel s (Command.pkcs11_id_get index) positive
        (pkcs11_id_entry number id blob)
        (record {
          sent_to = sent_to;
          ends_at = sent_to;
          is_sent = e;
          is_read = Laws.nil;
          is_next = rw (sym f) h;
        })
        refl

  -- A new codec, which has not seen the banner, waits for no response and has nothing
  -- accumulated, encodes `version`, and the session sends it. The connection gives the messages
  -- that polling the codec yields on the bytes of the banner's line and of a readable reply to
  -- `version`. With fuel, `version` then fails with the banner as an unexpected response, and
  -- the messages of the reply are still to come from the connection.
  pub version-info :
      (banner : Str) {fs : List Frame} {ms : List OvpnMessage}
      → c.frame_decoder.seen_info ≡ false
      → IsLine (wire (Frame.info banner))
      → All IsReadable fs
      → Reply c.max_multi_line_lines (expected_response Command.version) fs ms
      → send s.inner Command.version ≡ (sent_to, ok tt)
      → Gives T sent_to
          (polls
            (suc (length (wires fs) + 1))
            (encode_all base64 c ((Command.version, dst) ∷ []))
            (wires (Frame.info banner ∷ fs))).messages
          l'
      → (k : L) × (version T fuel s
          ≡ (read_on s [] k, done (err (unexpected_response (info banner)))))
        × Gives T k ms l'
  unfolding version event_from
  version-info banner i l r reply e g =
      let (k, h, f) =
        subst (λ ms. Gives T sent_to ms l') (polls-version base64 c dst q b banner i l r reply) g in
      (
        k,
        rw
            (send_expect_multi_line-Exchange T fuel s Command.version positive (info banner)
              (record {
                sent_to = sent_to;
                ends_at = sent_to;
                is_sent = e;
                is_read = Laws.nil;
                is_next = h;
              })
              refl)
            refl,
        f,
      )
