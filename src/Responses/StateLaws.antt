-- ===== src/Responses/StateLaws.antt =====
-- The entries of the `state` response (openvpn-mgmt-codec/src/parsed_response.rs), printed as one
-- line and read back, as an entry and as the payload of a `>STATE:` notification.
use mathlib.Core.List.{map}
use openvpn_mgmt_codec.Prelude.{
  ℕ, suc, ◌≤◌, ◌≡◌, refl, ap, ◌∙◌, false, List, [], ◌∷◌, ◌++◌, Option, none, some, All, Lacks,
  arith, ◌==◌, ◌≢◌,
}
use openvpn_mgmt_codec.Prelude.Results.{ok}
use openvpn_mgmt_codec.Text.{
  Str, splitn, splitn_by, any, is_empty, trim, trim_start, trim_start_by, trim_end_by,
  is_whitespace,
}
use openvpn_mgmt_codec.Text.Laws.{split_once-append, trim_end_by-Free, Free}
use openvpn_mgmt_codec.Text.Decimal.{
  max_u16, max_u64, to_string, to_string-IsDigit, parse-to_string, IsDigit, to_string-ne-nil,
}
use openvpn_mgmt_codec.Values.OpenVpnState.{
  OpenVpnState, openvpn_state_text, IsKnown, parse_openvpn_state-openvpn_state_text, connecting,
  wait, auth, get_config, assign_ip, add_routes, connected, reconnecting, exiting, tcp_connect,
  resolve, auth_pending, unknown,
}
use openvpn_mgmt_codec.Message.Types.{StateEntry, state}
use openvpn_mgmt_codec.Message.Parse.Fields.{parse_state, parse_optional_port}
use openvpn_mgmt_codec.Responses.{empty_state_history, ok_or}
use openvpn_mgmt_codec.Responses.States.{
  parse_state_entry, entry_of_fields, port, parse_state_history, parse_current_state, last,
}
use openvpn_mgmt_codec.Responses.Laws.{digits-Lacks}

pub splitn-append :
    (n d : ℕ) (a b : Str)
    → Lacks d a
    → splitn (suc (suc n)) d (a ++ (d ∷ b)) ≡ a ∷ splitn (suc n) d b
unfolding splitn_by
splitn-append n d a b h = rw (splitn_by, split_once-append d a b h) refl

Lacks-any : (d : ℕ) (s : Str) → any (λ c. c == d) s ≡ false → Lacks d s
unfolding any
Lacks-any d [] h = tt
Lacks-any d (c ∷ s) h = ground (arith, Lacks-any d s)

any-openvpn_state_text :
    (v : OpenVpnState) → IsKnown v → any (λ c. c == b',') (openvpn_state_text v) ≡ false
unfolding any openvpn_state_text
any-openvpn_state_text connecting h = refl
any-openvpn_state_text wait h = refl
any-openvpn_state_text auth h = refl
any-openvpn_state_text get_config h = refl
any-openvpn_state_text assign_ip h = refl
any-openvpn_state_text add_routes h = refl
any-openvpn_state_text connected h = refl
any-openvpn_state_text reconnecting h = refl
any-openvpn_state_text exiting h = refl
any-openvpn_state_text tcp_connect h = refl
any-openvpn_state_text resolve h = refl
any-openvpn_state_text auth_pending h = refl
any-openvpn_state_text (unknown text) h = absurd h

-- A port as it is printed.
abbrev port_text : Option ℕ → Str
port_text none = []
port_text (some p) = to_string p

abbrev IsPort : Option ℕ → Type 0
IsPort none = Unit
IsPort (some p) = p ≤ max_u16

-- The line of an entry: its fields with commas between them.
unfoldable pub entry_text : StateEntry → Str
entry_text e =
    to_string e.timestamp
    ++ (b',' ∷ openvpn_state_text e.name
        ++ (b',' ∷ e.description
            ++ (b',' ∷ e.local_ip
                ++ (b',' ∷ e.remote_ip
                    ++ (b',' ∷ port_text e.remote_port
                        ++ (b',' ∷ e.local_addr
                            ++ (b',' ∷ port_text e.local_port ++ (b',' ∷ e.local_ipv6))))))))

-- An entry whose state is known, whose numbers fit and whose texts but the last have no comma.
abbrev pub IsEntry : StateEntry → Type 0
IsEntry e =
    IsKnown e.name
    × (e.timestamp ≤ max_u64)
    × IsPort e.remote_port
    × IsPort e.local_port
    × Lacks b',' e.description
    × Lacks b',' e.local_ip
    × Lacks b',' e.remote_ip
    × Lacks b',' e.local_addr

to_string-Lacks : (n : ℕ) → Lacks b',' (to_string n)
to_string-Lacks n =
    digits-Lacks b',' (λ d. absurd (omega arith)) (to_string n) (to_string-IsDigit n)

port_text-Lacks : (o : Option ℕ) → Lacks b',' (port_text o)
port_text-Lacks none = tt
port_text-Lacks (some p) = to_string-Lacks p

-- The fields of the printed line.
abbrev fields : StateEntry → List Str
fields e =
    to_string e.timestamp
    ∷ openvpn_state_text e.name
    ∷ e.description
    ∷ e.local_ip
    ∷ e.remote_ip
    ∷ port_text e.remote_port
    ∷ e.local_addr
    ∷ port_text e.local_port
    ∷ e.local_ipv6
    ∷ []

splitn-entry_text : (e : StateEntry) → IsEntry e → splitn 9 b',' (entry_text e) ≡ fields e
unfolding entry_text splitn_by
splitn-entry_text e (k, t, p, q, d, l, r, a) =
    splitn-append 7 b',' (to_string e.timestamp) _ (to_string-Lacks e.timestamp)
    ∙ ap (λ z. to_string e.timestamp ∷ z)
        (splitn-append 6 b',' (openvpn_state_text e.name) _
            (Lacks-any b',' _ (any-openvpn_state_text e.name k))
          ∙ ap (λ z. openvpn_state_text e.name ∷ z)
              (splitn-append 5 b',' e.description _ d
                ∙ ap (λ z. e.description ∷ z)
                    (splitn-append 4 b',' e.local_ip _ l
                      ∙ ap (λ z. e.local_ip ∷ z)
                          (splitn-append 3 b',' e.remote_ip _ r
                            ∙ ap (λ z. e.remote_ip ∷ z)
                                (splitn-append 2 b',' (port_text e.remote_port) _
                                    (port_text-Lacks e.remote_port)
                                  ∙ ap (λ z. port_text e.remote_port ∷ z)
                                      (splitn-append 1 b',' e.local_addr _ a
                                        ∙ ap (λ z. e.local_addr ∷ z)
                                            (splitn-append 0 b',' (port_text e.local_port) _
                                              (port_text-Lacks e.local_port))))))))

is_empty-to_string : (n : ℕ) → is_empty (to_string n) ≡ false
is_empty-to_string n = not_empty (to_string n) (to_string-ne-nil n)
  where
    not_empty : (s : Str) → s ≢ [] → is_empty s ≡ false
    not_empty [] h = absurd (h refl)
    not_empty (c ∷ s) h = refl

port-port_text : (o : Option ℕ) → IsPort o → port (some (port_text o)) ≡ o
unfolding port
port-port_text none h = refl
port-port_text (some p) h = rw (is_empty-to_string p) (parse-to_string max_u16 p h)

entry_of_fields-fields : (e : StateEntry) → IsEntry e → entry_of_fields (fields e) ≡ ok e
unfolding entry_of_fields
entry_of_fields-fields e (k, t, p, q, d, l, r, a) =
    rw
      (
        parse-to_string max_u64 e.timestamp t,
        parse_openvpn_state-openvpn_state_text e.name k,
        port-port_text e.remote_port p,
        port-port_text e.local_port q,
      )
      refl

parse_state_entry-entry_text :
    (e : StateEntry) → IsEntry e → parse_state_entry (entry_text e) ≡ ok e
unfolding parse_state_entry
parse_state_entry-entry_text e h = rw (splitn-entry_text e h) (entry_of_fields-fields e h)

digits-Free : (s : Str) → All IsDigit s → Free is_whitespace s
unfolding is_whitespace
digits-Free [] h = tt
digits-Free (c ∷ s) h = (ground arith, digits-Free s h.1)

trim_start-Free : (s : Str) → Free is_whitespace s → trim_start s ≡ s
unfolding trim_start trim_start_by
trim_start-Free [] h = refl
trim_start-Free (c ∷ s) h = rw (h.0) refl

trim-digits : (s : Str) → All IsDigit s → trim s ≡ s
unfolding trim
trim-digits s h =
    rw (trim_start-Free s (digits-Free s h)) (trim_end_by-Free is_whitespace s (digits-Free s h))

parse_optional_port-port_text : (o : Option ℕ) → IsPort o → parse_optional_port (port_text o) ≡ o
unfolding parse_optional_port trim trim_start trim_start_by trim_end_by
parse_optional_port-port_text none h = refl
parse_optional_port-port_text (some p) h =
    rw (trim-digits (to_string p) (to_string-IsDigit p), is_empty-to_string p)
      (parse-to_string max_u16 p h)

-- A state entry is printed as one line. `parse_state_entry` reads it back, and as the payload
-- of `>STATE:` it gives the notification with the same entry. Its state is known, its numbers
-- fit, and no text but the last has a comma.
pub parse_state-parse_state_entry :
    (e : StateEntry)
    → IsEntry e
    → (parse_state_entry (entry_text e) ≡ ok e) × (parse_state (entry_text e) ≡ some (state e))
unfolding parse_state
parse_state-parse_state_entry e h = (
  parse_state_entry-entry_text e h,
  rw
      (
        splitn-entry_text e h,
        parse-to_string max_u64 e.timestamp h.1,
        parse_openvpn_state-openvpn_state_text e.name h.0,
        parse_optional_port-port_text e.remote_port h.2,
        parse_optional_port-port_text e.local_port h.3,
      )
      refl,
)

-- Printed entries are read back, and the last one is the current state.
pub parse_state_history-entry_text :
    (es : List StateEntry) → All IsEntry es → (parse_state_history (map entry_text es) ≡ ok es)
unfolding parse_state_history
parse_state_history-entry_text [] h = refl
parse_state_history-entry_text (e ∷ es) h =
    rw (parse_state_entry-entry_text e h.0, parse_state_history-entry_text es h.1) refl

pub parse_current_state-entry_text :
    (es : List StateEntry)
    → All IsEntry es
    → (parse_current_state (map entry_text es) ≡ ok_or (last es) empty_state_history)
unfolding parse_current_state
parse_current_state-entry_text es h = rw (parse_state_history-entry_text es h) refl
