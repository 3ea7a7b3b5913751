-- ===== src/Crv1.antt =====
-- openvpn-mgmt-codec/src/crv1_challenge.rs and crv1_response.rs. The engine of the `base64` crate is
-- a parameter.
pub mod Laws
use openvpn_mgmt_codec.Prelude.{
  ℕ, ◌+◌, ◌≡◌, List, [], ◌∷◌, ◌++◌, Option, none, some, length, ◌==◌, if◌then◌else◌, Lacks,
}
use openvpn_mgmt_codec.Prelude.Results.{Result, ok, err, ◌>>=◌}
use openvpn_mgmt_codec.Text.{Str, Bytes, codes, strip_prefix, splitn}
use openvpn_mgmt_codec.Text.Utf8.{as_bytes, from_utf8}
use openvpn_mgmt_codec.Responses.{ok_or}
use openvpn_mgmt_codec.Responses.States.{get_text}

-- `encode` and `decode` of the standard engine: what is encoded is decoded to itself, and the text
-- of an encoding has no colon.
pub record Engine (E : Type 0) : Type 0 where
  pub encode : Bytes → Str
  pub decode : Str → Result E Bytes
  pub decode-encode : (b : Bytes) → decode (encode b) ≡ ok b
  pub encode-Lacks : (b : Bytes) → Lacks b':' (encode b)

pub record Crv1Challenge : Type 0 where
  pub flags : Str
  pub state_id : Str
  pub username : Str
  pub challenge_text : Str

pub record Crv1Response : Type 0 where
  pub flags : Str
  pub state_id : Str
  pub username : Str
  pub response : Str

-- The errors of UTF-8 hold the bytes that were refused.
pub data ParseCrv1ResponseError (E : Type 0) : Type 0 where
  missing_prefix : ParseCrv1ResponseError E
  wrong_field_count : ℕ → ParseCrv1ResponseError E
  state_id_not_base64 username_not_base64 : E → ParseCrv1ResponseError E
  state_id_not_utf8 username_not_utf8 : Bytes → ParseCrv1ResponseError E

-- `map_err`
abbrev map_err : {E F A : Type 0} → (E → F) → Result E A → Result F A
map_err f (ok a) = ok a
map_err f (err e) = err (f e)

module _ {E : Type 0} (engine : Engine E) where
  open engine use {encode, decode}

  unfoldable pub challenge_string : Crv1Challenge → Str
  challenge_string c =
      codes "CRV1:"
      ++ (c.flags
          ++ (b':' ∷ encode (as_bytes c.state_id)
              ++ (b':' ∷ encode (as_bytes c.username) ++ (b':' ∷ c.challenge_text))))

  unfoldable pub response_string : Crv1Response → Str
  response_string r =
      codes "CRV1:"
      ++ (r.flags
          ++ (b':' ∷ encode (as_bytes r.state_id)
              ++ (b':' ∷ encode (as_bytes r.username) ++ (b':' ∷ r.response))))

  -- `decode` and `String::from_utf8` on one field.
  unfoldable pub decode_text :
      (E → ParseCrv1ResponseError E)
      → (Bytes → ParseCrv1ResponseError E)
      → Str
      → Result (ParseCrv1ResponseError E) Str
  decode_text not_base64 not_utf8 part = do
    bytes ← map_err not_base64 (decode part)
    ok_or (from_utf8 bytes) (not_utf8 bytes)

  unfoldable pub from_fields : List Str → Result (ParseCrv1ResponseError E) Crv1Response
  from_fields parts = do
    state_id ← decode_text state_id_not_base64 state_id_not_utf8 (get_text parts 1)
    username ← decode_text username_not_base64 username_not_utf8 (get_text parts 2)
    ok (record {
      flags = get_text parts 0;
      state_id = state_id;
      username = username;
      response = get_text parts 3;
    })

  unfoldable pub from_str : Str → Result (ParseCrv1ResponseError E) Crv1Response
  from_str input = ok_or (strip_prefix (codes "CRV1:") input) missing_prefix >>= λ rest.
      let parts = splitn 4 b':' rest in
      if length parts == 4 then from_fields parts else err (wrong_field_count (length parts + 1))
