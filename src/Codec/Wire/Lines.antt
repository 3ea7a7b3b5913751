-- ===== src/Codec/Wire/Lines.antt =====
-- The lines that `encode` writes contain no line break: one lemma for each line.
use openvpn_mgmt_codec.Prelude.{
  ℕ, ◌≡◌, refl, Bool, true, false, List, [], ◌∷◌, ◌++◌, Option, none, some, All, All-append,
  if◌then◌else◌,
}
use openvpn_mgmt_codec.Prelude.Results.{Result, ok, err, ◌>>=◌}
use openvpn_mgmt_codec.Text.{Str, codes, any}
use openvpn_mgmt_codec.Text.Decimal.{to_string}
use openvpn_mgmt_codec.Frame.Types.{EncoderMode, IoError}
use openvpn_mgmt_codec.Frame.Encoder.{wire_safe, wire_unsafe}
use openvpn_mgmt_codec.Frame.Encoder.Lines.{IsClean, any-IsClean, wire_safe-IsClean}
use openvpn_mgmt_codec.Values.TransportProtocol.{transport_protocol_text}
use openvpn_mgmt_codec.Command.Types.{
  KillTarget, common_name, address, RemoteAction, accept, skip, skip_n, modify, ProxyAction,
  no_proxy, http, socks, ClientDeny,
}
use openvpn_mgmt_codec.Codec.Wire.Texts.{
  append-IsClean, to_string-IsClean, quoted-IsClean, command-IsClean, literal-IsClean,
  words-IsClean, need_ok_text-IsClean, IsCleanProtocol, transport_protocol_text-IsClean,
}
use openvpn_mgmt_codec.Codec.Wire.{
  words, quoted, kill_line, username_line, password_line, challenge_line, need_ok_line,
  need_str_line, client_deny_line, client_kill_line, pending_auth_line, remote_line, proxy_line,
  push_update_line, cr_response_line,
}
use openvpn_mgmt_codec.Values.Auth.{AuthType, auth_type_text}
use openvpn_mgmt_codec.Values.NeedOk.{NeedOkResponse}
use Prim.Native.String.{String}

-- A line that is refused, or clean.
abbrev pub IsSafe : Result IoError Str → Type 0
IsSafe (ok s) = IsClean s
IsSafe (err e) = Unit

-- A checked field is clean in whatever line comes of it.
pub wire_safe-IsSafe :
    (s : Str) (field : String) (mode : EncoderMode) (line : Str → Result IoError Str)
    → ((t : Str) → IsClean t → IsSafe (line t))
    → IsSafe (wire_safe s field mode >>= line)
wire_safe-IsSafe s field mode line h = by_result (wire_safe s field mode) refl
  where
    by_result : (r : Result IoError Str) → wire_safe s field mode ≡ r → IsSafe (r >>= line)
    by_result (ok t) e = h t (wire_safe-IsClean s field mode e)
    by_result (err x) e = tt

-- Two checked fields.
wire_safe-IsSafe_two :
    (s t : Str) (f g : String) (mode : EncoderMode) (line : Str → Str → Str)
    → ((a b : Str) → IsClean a → IsClean b → IsClean (line a b))
    → IsSafe (wire_safe s f mode >>= λ a. wire_safe t g mode >>= λ b. ok (line a b))
wire_safe-IsSafe_two s t f g mode line h =
    wire_safe-IsSafe s f mode _ (λ a ha. wire_safe-IsSafe t g mode _ (λ b hb. h a b ha hb))

-- A target whose protocol is one that the source knows, or clean.
abbrev pub IsCleanTarget : KillTarget → Type 0
IsCleanTarget (common_name name) = Unit
IsCleanTarget (address protocol ip port) = IsCleanProtocol protocol

module _ (mode : EncoderMode) where
  pub username_line-IsSafe : (a : AuthType) (v : Str) → IsSafe (username_line mode a v)
  unfolding username_line any wire_unsafe
  username_line-IsSafe a v = wire_safe-IsSafe_two (auth_type_text a) v _ _ mode _ (λ x y hx hy.
      command-IsClean (codes "username") _ refl (quoted-IsClean x hx, (quoted-IsClean y hy, tt)))

  pub password_line-IsSafe : (a : AuthType) (v : Str) → IsSafe (password_line mode a v)
  unfolding password_line any wire_unsafe
  password_line-IsSafe a v = wire_safe-IsSafe_two (auth_type_text a) v _ _ mode _ (λ x y hx hy.
      command-IsClean (codes "password") _ refl (quoted-IsClean x hx, (quoted-IsClean y hy, tt)))

  pub challenge_line-IsSafe : (s r : Str) → IsSafe (challenge_line mode s r)
  unfolding challenge_line any wire_unsafe
  challenge_line-IsSafe s r = wire_safe-IsSafe_two s r _ _ mode _ (λ x y hx hy.
      literal-IsClean (codes "password \"Auth\" ") _ refl (
        quoted-IsClean _ (
          literal-IsClean (codes "CRV1::") _ refl
            (append-IsClean x _ hx (literal-IsClean (codes "::") y refl hy)))))

  pub need_ok_line-IsSafe : (n : Str) (r : NeedOkResponse) → IsSafe (need_ok_line mode n r)
  unfolding need_ok_line any wire_unsafe
  need_ok_line-IsSafe n r =
      wire_safe-IsSafe n _ mode _
        (λ x hx. command-IsClean (codes "needok") _ refl (hx, (need_ok_text-IsClean r, tt)))

  pub need_str_line-IsSafe : (n v : Str) → IsSafe (need_str_line mode n v)
  unfolding need_str_line any wire_unsafe
  need_str_line-IsSafe n v =
      wire_safe-IsSafe_two n v _ _ mode _
        (λ x y hx hy. command-IsClean (codes "needstr") _ refl (hx, (quoted-IsClean y hy, tt)))

  pub kill_line-IsSafe : (t : KillTarget) → IsCleanTarget t → IsSafe (kill_line mode t)
  unfolding kill_line any wire_unsafe
  kill_line-IsSafe (common_name name) h =
      wire_safe-IsSafe name _ mode _ (λ x hx. literal-IsClean (codes "kill ") x refl hx)
  kill_line-IsSafe (address protocol ip port) h = wire_safe-IsSafe ip _ mode _ (λ x hx.
      literal-IsClean (codes "kill ") _ refl (
        append-IsClean (transport_protocol_text protocol) _
          (transport_protocol_text-IsClean protocol h)
          (refl, append-IsClean x _ hx (refl, to_string-IsClean port))))

  optional-IsSafe :
      (head : List Str) (field : String) (o : Option Str)
      → All IsClean head
      → IsSafe (elim o [
        | some r ↦ wire_safe r field mode >>= λ x. ok (words (head ++ (quoted x ∷ [])))
        | none ↦ ok (words head)
      ])
  optional-IsSafe head field (some r) h =
      wire_safe-IsSafe r _ mode _
        (λ x hx. words-IsClean _ (All-append IsClean head _ h (quoted-IsClean x hx, tt)))
  optional-IsSafe head field none h = words-IsClean head h

  pub client_deny_line-IsSafe : (d : ClientDeny) → IsSafe (client_deny_line mode d)
  unfolding client_deny_line any wire_unsafe
  client_deny_line-IsSafe d = wire_safe-IsSafe d.reason _ mode _ (λ x hx.
      optional-IsSafe _ _ d.client_reason (
        any-IsClean (codes "client-deny") refl,
        (to_string-IsClean d.cid, (to_string-IsClean d.kid, (quoted-IsClean x hx, tt))),
      ))

  pub client_kill_line-IsSafe : (n : ℕ) (m : Option Str) → IsSafe (client_kill_line mode n m)
  unfolding client_kill_line any wire_unsafe
  client_kill_line-IsSafe n (some m) =
      wire_safe-IsSafe m _ mode _
        (λ x hx. command-IsClean (codes "client-kill") _ refl (to_string-IsClean n, (hx, tt)))
  client_kill_line-IsSafe n none =
      command-IsClean (codes "client-kill") (to_string n ∷ []) refl (to_string-IsClean n, tt)

  pub pending_auth_line-IsSafe :
      (c k : ℕ) (e : Str) (t : ℕ) → IsSafe (pending_auth_line mode c k e t)
  unfolding pending_auth_line any wire_unsafe
  pending_auth_line-IsSafe c k e t = wire_safe-IsSafe e _ mode _ (λ x hx.
      command-IsClean (codes "client-pending-auth") _ refl
        (to_string-IsClean c, (to_string-IsClean k, (hx, (to_string-IsClean t, tt)))))

  pub remote_line-IsSafe : (a : RemoteAction) → IsSafe (remote_line mode a)
  unfolding remote_line any wire_unsafe
  remote_line-IsSafe accept = any-IsClean (codes "remote ACCEPT") refl
  remote_line-IsSafe skip = any-IsClean (codes "remote SKIP") refl
  remote_line-IsSafe (skip_n n) =
      command-IsClean (codes "remote SKIP") (to_string n ∷ []) refl (to_string-IsClean n, tt)
  remote_line-IsSafe (modify host port) =
      wire_safe-IsSafe host _ mode _
        (λ x hx. command-IsClean (codes "remote MOD") _ refl (hx, (to_string-IsClean port, tt)))

  nct-IsClean : (b : Bool) → IsClean (if b then codes " nct" else [])
  unfolding any wire_unsafe
  nct-IsClean true = any-IsClean (codes " nct") refl
  nct-IsClean false = tt

  pub proxy_line-IsSafe : (a : ProxyAction) → IsSafe (proxy_line mode a)
  unfolding proxy_line any wire_unsafe
  proxy_line-IsSafe no_proxy = any-IsClean (codes "proxy NONE") refl
  proxy_line-IsSafe (http host port b) = wire_safe-IsSafe host _ mode _ (λ x hx.
      command-IsClean (codes "proxy HTTP") _ refl
        (hx, (append-IsClean (to_string port) _ (to_string-IsClean port) (nct-IsClean b), tt)))
  proxy_line-IsSafe (socks host port) =
      wire_safe-IsSafe host _ mode _
        (λ x hx. command-IsClean (codes "proxy SOCKS") _ refl (hx, (to_string-IsClean port, tt)))

  pub push_update_line-IsSafe : (c : Option ℕ) (o : Str) → IsSafe (push_update_line mode c o)
  unfolding push_update_line any wire_unsafe
  push_update_line-IsSafe none o =
      wire_safe-IsSafe o _ mode _
        (λ x hx. command-IsClean (codes "push-update-broad") _ refl (quoted-IsClean x hx, tt))
  push_update_line-IsSafe (some c) o = wire_safe-IsSafe o _ mode _ (λ x hx.
      command-IsClean (codes "push-update-cid") _ refl
        (to_string-IsClean c, (quoted-IsClean x hx, tt)))

  pub cr_response_line-IsSafe : (r : Str) → IsSafe (cr_response_line mode r)
  unfolding cr_response_line any wire_unsafe
  cr_response_line-IsSafe r =
      wire_safe-IsSafe r _ mode _ (λ x hx. command-IsClean (codes "cr-response") _ refl (hx, tt))
