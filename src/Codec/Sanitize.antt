-- ===== src/Codec/Sanitize.antt =====
-- `encode` in `Sanitize` mode, where no field is refused.
use openvpn_mgmt_codec.Prelude.{ℕ, ◌++◌, [], ◌∷◌, ◌≡◌, refl, ap, ◌∙◌, List, Option, none, some}
use openvpn_mgmt_codec.Prelude.Results.{Result, ok, err, ◌>>=◌}
use openvpn_mgmt_codec.Text.{Str, Bytes}
use openvpn_mgmt_codec.Frame.Types.{sanitize, IoError}
use openvpn_mgmt_codec.Frame.Encoder.{wire_safe, without_unsafe}
use openvpn_mgmt_codec.Frame.Encoder.Lines.{wire_safe-sanitize}
use openvpn_mgmt_codec.Frame.Encoder.Blocks.{write_block-sanitize}
use openvpn_mgmt_codec.Values.StatusFormat.{v1, v2, v3}
use openvpn_mgmt_codec.Values.Auth.{auth_type_text}
use openvpn_mgmt_codec.Command.Types.{
  OvpnCommand, status, verb, mute, KillTarget, common_name, address, RemoteAction, modify,
  ProxyAction, no_proxy, http, socks, ClientDeny, kill, username, password, challenge_response,
  need_ok, need_str, client_deny, client_kill, remote, proxy, client_pending_auth, cr_response,
  push_update_broad, push_update_cid, management_password, raw, raw_multi_line,
}
use openvpn_mgmt_codec.Codec.State.{OvpnCodec}
use openvpn_mgmt_codec.Codec.Wire.{
  Wire, one_line, block, command_wire, quoted, words, kill_line, username_line, password_line,
  challenge_line, need_ok_line, need_str_line, client_deny_line, client_kill_line,
  pending_auth_line, remote_line, proxy_line, push_update_line, cr_response_line,
}
use openvpn_mgmt_codec.Codec.Encode.{write_wire, encode}

abbrev IsOk : Result IoError Str → Type 0
IsOk (ok s) = Unit
IsOk (err e) = ⊥

IsOk-field :
    (s : Str) (field : Prim.Native.String.String) (line : Str → Result IoError Str)
    → ((t : Str) → IsOk (line t))
    → IsOk (wire_safe s field sanitize >>= line)
IsOk-field s field line h = rw (wire_safe-sanitize s field) (h (without_unsafe s))

IsOk-wire_safe : (s : Str) (field : Prim.Native.String.String) → IsOk (wire_safe s field sanitize)
IsOk-wire_safe s field = rw (wire_safe-sanitize s field) tt

IsOk-kill : (t : KillTarget) → IsOk (kill_line sanitize t)
unfolding kill_line
IsOk-kill (common_name n) = IsOk-field n _ _ (λ t. tt)
IsOk-kill (address p ip port) = IsOk-field ip _ _ (λ t. tt)

IsOk-client_deny : (d : ClientDeny) → IsOk (client_deny_line sanitize d)
unfolding client_deny_line
IsOk-client_deny d = IsOk-field d.reason _ _ (λ t. optional _ d.client_reason)
  where
    optional :
        (head : List Str) (o : Option Str)
        → IsOk (elim o [
          | some r ↦ wire_safe r "client-deny client_reason" sanitize >>= λ x.
              ok (words (head ++ (quoted x ∷ [])))
          | none ↦ ok (words head)
        ])
    optional head (some r) = IsOk-field r _ _ (λ t. tt)
    optional head none = tt

IsOk-client_kill : (n : ℕ) (m : Option Str) → IsOk (client_kill_line sanitize n m)
unfolding client_kill_line
IsOk-client_kill n (some m) = IsOk-field m _ _ (λ t. tt)
IsOk-client_kill n none = tt

IsOk-remote : (a : RemoteAction) → IsOk (remote_line sanitize a)
unfolding remote_line
IsOk-remote (modify host port) = IsOk-field host _ _ (λ t. tt)
IsOk-remote _ = tt

IsOk-proxy : (a : ProxyAction) → IsOk (proxy_line sanitize a)
unfolding proxy_line
IsOk-proxy no_proxy = tt
IsOk-proxy (http host port b) = IsOk-field host _ _ (λ t. tt)
IsOk-proxy (socks host port) = IsOk-field host _ _ (λ t. tt)

IsOk-push_update : (c : Option ℕ) (o : Str) → IsOk (push_update_line sanitize c o)
unfolding push_update_line
IsOk-push_update none o = IsOk-field o _ _ (λ t. tt)
IsOk-push_update (some c) o = IsOk-field o _ _ (λ t. tt)

abbrev IsOkWire : Wire → Type 0
IsOkWire (one_line r) = IsOk r
IsOkWire (block header lines) = Unit

command_wire-IsOkWire :
    (base64 : Bytes → Str) (command : OvpnCommand) → IsOkWire (command_wire base64 sanitize command)
unfolding command_wire username_line password_line challenge_line need_ok_line need_str_line
    pending_auth_line cr_response_line
command_wire-IsOkWire base64 (kill t) = IsOk-kill t
command_wire-IsOkWire base64 (username a v) =
    IsOk-field (auth_type_text a) _ _ (λ x. IsOk-field v _ _ (λ y. tt))
command_wire-IsOkWire base64 (password a v) =
    IsOk-field (auth_type_text a) _ _ (λ x. IsOk-field v _ _ (λ y. tt))
command_wire-IsOkWire base64 (challenge_response s r) =
    IsOk-field s _ _ (λ x. IsOk-field r _ _ (λ y. tt))
command_wire-IsOkWire base64 (need_ok n r) = IsOk-field n _ _ (λ x. tt)
command_wire-IsOkWire base64 (need_str n v) = IsOk-field n _ _ (λ x. IsOk-field v _ _ (λ y. tt))
command_wire-IsOkWire base64 (client_deny d) = IsOk-client_deny d
command_wire-IsOkWire base64 (client_kill n m) = IsOk-client_kill n m
command_wire-IsOkWire base64 (remote a) = IsOk-remote a
command_wire-IsOkWire base64 (proxy a) = IsOk-proxy a
command_wire-IsOkWire base64 (client_pending_auth c k e t) = IsOk-field e _ _ (λ x. tt)
command_wire-IsOkWire base64 (cr_response r) = IsOk-field r _ _ (λ x. tt)
command_wire-IsOkWire base64 (push_update_broad o) = IsOk-push_update none o
command_wire-IsOkWire base64 (push_update_cid c o) = IsOk-push_update (some c) o
command_wire-IsOkWire base64 (management_password p) = IsOk-wire_safe p _
command_wire-IsOkWire base64 (raw s) = IsOk-wire_safe s _
command_wire-IsOkWire base64 (raw_multi_line s) = IsOk-wire_safe s _
command_wire-IsOkWire base64 (status v1) = tt
command_wire-IsOkWire base64 (status v2) = tt
command_wire-IsOkWire base64 (status v3) = tt
command_wire-IsOkWire base64 (verb none) = tt
command_wire-IsOkWire base64 (verb (some n)) = tt
command_wire-IsOkWire base64 (mute none) = tt
command_wire-IsOkWire base64 (mute (some n)) = tt
command_wire-IsOkWire base64 _ = tt

write_wire-sanitize : (dst : Bytes) (w : Wire) → IsOkWire w → (write_wire sanitize dst w).1 ≡ ok tt
unfolding write_wire
write_wire-sanitize dst (one_line (ok s)) h = refl
write_wire-sanitize dst (one_line (err e)) h = absurd h
write_wire-sanitize dst (block header lines) h =
    ap (λ x. x.1) (write_block-sanitize dst header lines)

-- In `Sanitize` mode `encode` succeeds on every command, whatever texts are in its fields.
pub encode-sanitize :
    (base64 : Bytes → Str) (c : OvpnCodec) (command : OvpnCommand) (dst : Bytes)
    → c.encoder_mode ≡ sanitize
    → (encode base64 c command dst).2 ≡ ok tt
unfolding encode
encode-sanitize base64 c command dst e =
    ap (λ m. (write_wire m dst (command_wire base64 m command)).1) e
    ∙ write_wire-sanitize dst _ (command_wire-IsOkWire base64 command)
