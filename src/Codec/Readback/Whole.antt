-- ===== src/Codec/Readback/Whole.antt =====
-- What `encode` writes for a command, as a whole line, is read back by `FromStr for OvpnCommand`.
use openvpn_mgmt_codec.Prelude.{
  ℕ, ◌≤◌, ◌≡◌, refl, ap, ◌∙◌, [], ◌∷◌, ◌++◌, append-nil, Option, none, some, arith, Bool, false,
}
use openvpn_mgmt_codec.Prelude.Results.{ok}
use openvpn_mgmt_codec.Text.{any, Str, Bytes, codes, str_eq, is_whitespace, trim, trim_end_by}
use openvpn_mgmt_codec.Text.Laws.{Free}
use openvpn_mgmt_codec.Text.Decimal.{max_u64, to_string}
use openvpn_mgmt_codec.Text.Utf8.{as_bytes}
use openvpn_mgmt_codec.Frame.Encoder.{escape, quote, write_line}
use openvpn_mgmt_codec.Frame.Encoder.Lines.{IsClean}
use openvpn_mgmt_codec.Values.Auth.{AuthType, IsKnown, auth_type_text}
use openvpn_mgmt_codec.Command.Types.{OvpnCommand, ClientDeny, password, client_deny}
use openvpn_mgmt_codec.Command.Parse.{from_str, parse_command}
use openvpn_mgmt_codec.Command.Parse.Arms.{parse_password, parse_client_deny}
use openvpn_mgmt_codec.Codec.State.{OvpnCodec}
use openvpn_mgmt_codec.Codec.Wire.{quoted, words, one_line, command_wire}
use openvpn_mgmt_codec.Codec.Encode.{write_wire, encode}
use openvpn_mgmt_codec.Codec.Readback.{
  IsWord, IsStart, IsCleanReason, reason_rest, deny_args, password_args, split_once_by-word,
  trim_start-word, to_string-IsWord, trim_start-quoted, parse_password-args,
  password_line-password_args, parse_client_deny-deny_args, client_deny_line-deny_args,
}

-- A text that does not end in white space.
abbrev IsEnding : Str → Type 0
IsEnding [] = ⊥
IsEnding (c ∷ s) = trim_end_by is_whitespace (c ∷ s) ≡ c ∷ s

IsEnding-cons : (c : ℕ) (s : Str) → IsEnding s → IsEnding (c ∷ s)
unfolding trim_end_by
IsEnding-cons c [] h = absurd h
IsEnding-cons c (x ∷ s) h = rw h refl

IsEnding-append : (s t : Str) → IsEnding t → IsEnding (s ++ t)
IsEnding-append [] t h = h
IsEnding-append (c ∷ s) t h = IsEnding-cons c (s ++ t) (IsEnding-append s t h)

quoted-IsEnding : (s : Str) → IsEnding (quoted s)
unfolding quoted quote trim_end_by is_whitespace
quoted-IsEnding s = IsEnding-append (b'"' ∷ escape s) (b'"' ∷ []) refl

trim_end-IsEnding : (s : Str) → IsEnding s → trim_end_by is_whitespace s ≡ s
trim_end-IsEnding [] h = absurd h
trim_end-IsEnding (c ∷ s) h = h

trim-IsStart : (s : Str) → IsStart s → IsEnding s → trim s ≡ s
unfolding trim
trim-IsStart s b e = rw b (trim_end-IsEnding s e)

word-Free : (w : Str) → IsWord w → Free is_whitespace w
word-Free [] h = absurd h
word-Free (c ∷ w) h = h.1

-- A word, a space, and arguments that trimming keeps.
from_str-word :
    (w args : Str)
    → IsWord w
    → IsStart args
    → IsEnding args
    → from_str (w ++ (b' ' ∷ args)) ≡ parse_command (w ++ (b' ' ∷ args)) w args
unfolding from_str
from_str-word w args h b e =
    rw
      (trim-IsStart (w ++ (b' ' ∷ args)) (trim_start-word w (b' ' ∷ args) h)
        (IsEnding-append w (b' ' ∷ args) (IsEnding-cons b' ' args e)))
      (rw (split_once_by-word w args (word-Free w h)) (rw (trim-IsStart args b e) refl))

any-Free : (p : ℕ → Bool) (s : Str) → any p s ≡ false → Free p s
unfolding any
any-Free p [] h = tt
any-Free p (c ∷ s) h = (ground arith, any-Free p s (ground arith))

password-IsWord : IsWord (codes "password")
unfolding any is_whitespace
password-IsWord = (omega arith, any-Free is_whitespace (codes "password") refl)

client_deny-IsWord : IsWord (codes "client-deny")
unfolding any is_whitespace
client_deny-IsWord = (omega arith, any-Free is_whitespace (codes "client-deny") refl)

parse_command-password :
    (line args : Str) → parse_command line (codes "password") args ≡ parse_password args
unfolding parse_command str_eq
parse_command-password line args = refl

parse_command-client_deny :
    (line args : Str) → parse_command line (codes "client-deny") args ≡ parse_client_deny args
unfolding parse_command str_eq
parse_command-client_deny line args = refl

password_args-IsStart : (a : AuthType) (v : Str) → IsStart (password_args a v)
unfolding password_args words
password_args-IsStart a v = trim_start-quoted (auth_type_text a) (b' ' ∷ quoted v)

password_args-IsEnding : (a : AuthType) (v : Str) → IsEnding (password_args a v)
unfolding password_args words
password_args-IsEnding a v =
    IsEnding-append (quoted (auth_type_text a)) (b' ' ∷ quoted v)
      (IsEnding-cons b' ' (quoted v) (quoted-IsEnding v))

reason_rest-IsEnding : (s : Str) (r : Option Str) → IsEnding s → IsEnding (s ++ reason_rest r)
unfolding reason_rest
reason_rest-IsEnding s none h = rw (append-nil s) h
reason_rest-IsEnding s (some r) h =
    IsEnding-append s (b' ' ∷ quoted r) (IsEnding-cons b' ' (quoted r) (quoted-IsEnding r))

deny_args-IsStart : (d : ClientDeny) → IsStart (deny_args d)
unfolding deny_args
deny_args-IsStart d = trim_start-word (to_string d.cid) _ (to_string-IsWord d.cid)

deny_args-IsEnding : (d : ClientDeny) → IsEnding (deny_args d)
unfolding deny_args
deny_args-IsEnding d = IsEnding-append (to_string d.cid) _ (
    IsEnding-cons b' ' _ (
      IsEnding-append (to_string d.kid) _ (
        IsEnding-cons b' ' _
          (reason_rest-IsEnding (quoted d.reason) d.client_reason (quoted-IsEnding d.reason)))))

module _ (base64 : Bytes → Str) (c : OvpnCodec) (dst : Bytes) where
  -- The line is appended to the buffer with its newline, and `encode` succeeds.
  abbrev pub Encodes : OvpnCommand → Str → Type 0
  Encodes command line =
      ((encode base64 c command dst).1 ≡ dst ++ (as_bytes line ++ (b'\n' ∷ [])))
      × ((encode base64 c command dst).2 ≡ ok tt)

  Encodes-one_line :
      (command : OvpnCommand) (line : Str)
      → command_wire base64 c.encoder_mode command ≡ one_line (ok line)
      → Encodes command line
  unfolding encode write_wire write_line
  Encodes-one_line command line e = rw e (refl, refl)

  -- On every codec, in both modes, for a known type and a clean value, `encode` succeeds and
  -- appends to the buffer one line, `password ` and the quoted type and value, with its
  -- newline. `FromStr` reads this line back as the same command, whatever quotes and
  -- backslashes are in the value.
  pub password-readback :
      (a : AuthType) (v : Str)
      → IsKnown a
      → IsClean v
      → Encodes (password a v) (codes "password " ++ password_args a v)
        × (from_str (codes "password " ++ password_args a v) ≡ ok (password a v))
  password-readback a v k h = (
    Encodes-one_line (password a v) _
        (unfold command_wire in ap one_line (password_line-password_args c.encoder_mode a v k h)),
    from_str-word (codes "password") (password_args a v) password-IsWord (password_args-IsStart a v)
          (password_args-IsEnding a v)
        ∙ parse_command-password _ (password_args a v)
        ∙ parse_password-args a v k,
  )

  -- On every codec, in both modes, for 64-bit ids and clean reasons, `encode` succeeds and
  -- appends to the buffer one line, `client-deny ` with the ids and the quoted reasons, with
  -- its newline. `FromStr` reads this line back as the same command, with or without the reason
  -- for the client.
  pub client_deny-readback :
      (d : ClientDeny)
      → d.cid ≤ max_u64
      → d.kid ≤ max_u64
      → IsClean d.reason
      → IsCleanReason d.client_reason
      → Encodes (client_deny d) (codes "client-deny " ++ deny_args d)
        × (from_str (codes "client-deny " ++ deny_args d) ≡ ok (client_deny d))
  client_deny-readback d i k h o = (
    Encodes-one_line (client_deny d) _ (
        unfold command_wire in
        ap one_line
          (client_deny_line-deny_args c.encoder_mode d.cid d.kid d.reason d.client_reason h o)),
    from_str-word (codes "client-deny") (deny_args d) client_deny-IsWord (deny_args-IsStart d)
          (deny_args-IsEnding d)
        ∙ parse_command-client_deny _ (deny_args d)
        ∙ parse_client_deny-deny_args d i k,
  )
