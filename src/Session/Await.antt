-- ===== src/Session/Await.antt =====
-- What an `async` method of openvpn-mgmt-codec/src/split.rs and session.rs does: it reads and
-- writes the transport and the stash, and is done, or still waits.
use openvpn_mgmt_codec.Prelude.{List}
use openvpn_mgmt_codec.Prelude.Results.{Result, ok, err}
use openvpn_mgmt_codec.Text.{Str}
use openvpn_mgmt_codec.Message.Types.{OvpnMessage, Notification}
use openvpn_mgmt_codec.Command.Types.{OvpnCommand}
use openvpn_mgmt_codec.Responses.{ParseResponseError}
use openvpn_mgmt_codec.Status.{ParseStatusError}

-- What `next().await` gives: a message or an I/O error, the end of the stream, or nothing as long
-- as the peer sends no more.
pub data Next (E : Type 0) : Type 0 where
  item : Result E OvpnMessage → Next E
  closed pending : Next E

-- A connection with state `L` and I/O errors `E`, and the two calls that the program makes of it.
pub record Transport (L E : Type 0) : Type 0 where
  pub send : L → OvpnCommand → L × Result E (Unit {0})
  pub next : L → L × Next E

pub record EventStream (L : Type 0) : Type 0 where
  pub inner : L
  pub stash : List Notification

pub data SessionError (E : Type 0) : Type 0 where
  io : E → SessionError E
  connection_closed : SessionError E
  server_error : Str → SessionError E
  unexpected_response : OvpnMessage → SessionError E
  parse_response : ParseResponseError → SessionError E
  parse_status : ParseStatusError → SessionError E

pub data Awaited (E A : Type 0) : Type 0 where
  done : Result (SessionError E) A → Awaited E A
  waiting out_of_fuel : Awaited E A

abbrev pub Async : Type 0 → Type 0 → Type 0 → Type 0
Async L E A = EventStream L → EventStream L × Awaited E A

module _ {L E : Type 0} where
  abbrev pub pure : {A : Type 0} → A → Async L E A
  pure a s = (s, done (ok a))

  -- An error ends the method; what was read and sent stays so.
  abbrev pub after :
      {A B : Type 0} → (A → Async L E B) → EventStream L × Awaited E A → EventStream L × Awaited E B
  after f (s, done (ok a)) = f a s
  after f (s, done (err e)) = (s, done (err e))
  after f (s, waiting) = (s, waiting)
  after f (s, out_of_fuel) = (s, out_of_fuel)

  infixl 5 ◌>>=◌ ◌>>◌
  abbrev pub ◌>>=◌ : {A B : Type 0} → Async L E A → (A → Async L E B) → Async L E B
  (m >>= f) s = after f (m s)

  abbrev pub ◌>>◌ : {A B : Type 0} → Async L E A → Async L E B → Async L E B
  m >> k = m >>= λ _. k

  -- The value of a parser, or its error through `?`.
  abbrev pub parsed : {A : Type 0} → Result ParseResponseError A → Async L E A
  parsed (ok a) s = (s, done (ok a))
  parsed (err e) s = (s, done (err (parse_response e)))

  abbrev pub parsed_status : {A : Type 0} → Result ParseStatusError A → Async L E A
  parsed_status (ok a) s = (s, done (ok a))
  parsed_status (err e) s = (s, done (err (parse_status e)))
