-- ===== src/Session/Laws.antt =====
-- Reading from a connection (openvpn-mgmt-codec/src/split.rs): the response that is waited for, and
-- the notifications that come before it.
use openvpn_mgmt_codec.Prelude.{
  ℕ, zero, suc, ◌<◌, ◌≡◌, refl, ap, ◌∙◌, List, [], ◌∷◌, ◌++◌, arith, length, append_assoc,
  append-nil,
}
use openvpn_mgmt_codec.Prelude.Results.{ok, err}
use openvpn_mgmt_codec.Message.Types.{
  OvpnMessage, Notification, notification, success, error, multi_line, pkcs11_id_entry, info,
  password_prompt, unrecognized,
}
use openvpn_mgmt_codec.Session.Await.{
  Transport, Next, item, closed, pending, EventStream, Awaited, done, waiting, io,
  connection_closed,
}
use openvpn_mgmt_codec.Session.{
  response, notification_event, event_from, PolledEvent, event, poll_next, received, recv_response,
}

module _ {L E : Type 0} (T : Transport L E) where
  open T use {send, next}

  -- The connection gives the notifications, and is then at `l'`.
  pub data Reads : L → List Notification → L → Type 0 where
    nil : {l : L} → Reads l [] l
    cons :
        {l l' l'' : L} {ns : List Notification} (n : Notification)
        → next l ≡ (l', item (ok (notification n)))
        → Reads l' ns l''
        → Reads l (n ∷ ns) l''

  -- Whatever is not a notification, with what it does to the caller.
  pub data Ends : Next E → Awaited E OvpnMessage → Type 0 where
    a_response : (m : OvpnMessage) → event_from m ≡ response m → Ends (item (ok m)) (done (ok m))
    a_failure : (e : E) → Ends (item (err e)) (done (err (io e)))
    at_end : Ends closed (done (err connection_closed))
    no_more : Ends pending waiting

  received-response :
      (again : EventStream L → EventStream L × Awaited E OvpnMessage) (s : EventStream L)
      (m : OvpnMessage)
      → event_from m ≡ response m
      → received T again s (item (ok m)) ≡ (s, done (ok m))
  unfolding event_from
  received-response again s (notification n) h = absurd (cc)
  received-response again s (success t) h = refl
  received-response again s (error t) h = refl
  received-response again s (multi_line t) h = refl
  received-response again s (pkcs11_id_entry a b c) h = refl
  received-response again s (info t) h = refl
  received-response again s password_prompt h = refl
  received-response again s (unrecognized t k) h = refl

  received-Ends :
      (again : EventStream L → EventStream L × Awaited E OvpnMessage) (s : EventStream L)
      {e : Next E} {a : Awaited E OvpnMessage}
      → Ends e a
      → received T again s e ≡ (s, a)
  received-Ends again s (a_response m r) = received-response again s m r
  received-Ends again s (a_failure e) = refl
  received-Ends again s at_end = refl
  received-Ends again s no_more = refl

  -- The connection gives notifications and then something else, and the fuel is above their
  -- number. `recv_response` then returns: with the response, the I/O error or the end of the
  -- connection, or it waits if there is nothing more; in each case the notifications are behind
  -- the stash, in order, and nothing further has been read.
  pub recv_response-Reads :
      (fuel : ℕ) (s : EventStream L) {ns : List Notification} {l l' : L} {e : Next E}
      {a : Awaited E OvpnMessage}
      → Reads s.inner ns l
      → next l ≡ (l', e)
      → Ends e a
      → length ns < fuel
      → recv_response T fuel s ≡ (record { inner = l'; stash = s.stash ++ ns }, a)
  unfolding recv_response
  recv_response-Reads zero s r n ends lt = absurd (omega arith)
  recv_response-Reads (suc fuel) s nil n ends lt =
      rw (n, append-nil s.stash) (received-Ends (recv_response T fuel) _ ends)
  recv_response-Reads (suc fuel) s {l' = l'} {a = a} (cons {l' = l₁} {ns = ns} m h r) n ends lt =
      rw h (
        recv_response-Reads fuel (record { inner = l₁; stash = s.stash ++ (m ∷ []) }) r n ends
          (omega arith)
        ∙ ap (λ z. (record { inner = l'; stash = z }, a)) (append_assoc s.stash (m ∷ []) ns))

  -- The events of `n` polls.
  unfoldable pub poll_times : ℕ → EventStream L → EventStream L × List (PolledEvent E)
  poll_times zero s = (s, [])
  poll_times (suc n) s =
      let (s', e) = poll_next T s in let (s'', es) = poll_times n s' in (s'', e ∷ es)

  unfoldable pub notification_events : List Notification → List (PolledEvent E)
  notification_events [] = []
  notification_events (n ∷ ns) = event (notification_event n) ∷ notification_events ns

  poll_times-poll_next :
      (n : ℕ) (s : EventStream L) {s' s'' : EventStream L} {e : PolledEvent E}
      {es : List (PolledEvent E)}
      → poll_next T s ≡ (s', e)
      → poll_times n s' ≡ (s'', es)
      → poll_times (suc n) s ≡ (s'', e ∷ es)
  unfolding poll_times
  poll_times-poll_next n s h k = rw (h, k) refl

  -- A stashed notification, and one from the connection.
  poll_next-stash :
      (l : L) (n : Notification) (stash : List Notification)
      → poll_next T (record { inner = l; stash = n ∷ stash })
        ≡ (record { inner = l; stash = stash }, event (notification_event n))
  unfolding poll_next
  poll_next-stash l n stash = refl

  poll_next-event :
      {l l' : L} (m : OvpnMessage)
      → next l ≡ (l', item (ok m))
      → poll_next T (record { inner = l; stash = [] })
        ≡ (record { inner = l'; stash = [] }, event (event_from m))
  unfolding poll_next
  poll_next-event m h = rw h refl

  poll_times-stash :
      (l : L) (stash : List Notification)
      → poll_times (length stash) (record { inner = l; stash = stash })
        ≡ (record { inner = l; stash = [] }, notification_events stash)
  unfolding poll_times poll_next notification_events
  poll_times-stash l [] = refl
  poll_times-stash l (n ∷ ns) = rw (poll_times-stash l ns) refl

  poll_times-Reads :
      {l l' l'' : L} {ns : List Notification} {m : OvpnMessage}
      → Reads l ns l'
      → next l' ≡ (l'', item (ok m))
      → event_from m ≡ response m
      → poll_times (suc (length ns)) (record { inner = l; stash = [] })
        ≡ (record { inner = l''; stash = [] }, notification_events ns ++ (event (response m) ∷ []))
  unfolding poll_times notification_events event_from
  poll_times-Reads {m = m} nil h r = poll_times-poll_next 0 _ (poll_next-event m h ∙ rw r refl) refl
  poll_times-Reads (cons {ns = ns} n e rs) h r =
      poll_times-poll_next (suc (length ns)) _ (poll_next-event (notification n) e)
        (poll_times-Reads rs h r)

  poll_times-stash_Reads :
      {l l' l'' : L} (stash : List Notification) {ns : List Notification} {m : OvpnMessage}
      → Reads l ns l'
      → next l' ≡ (l'', item (ok m))
      → event_from m ≡ response m
      → poll_times (suc (length (stash ++ ns))) (record { inner = l; stash = stash }) ≡ (
        record { inner = l''; stash = [] },
        notification_events (stash ++ ns) ++ (event (response m) ∷ []),
      )
  unfolding notification_events
  poll_times-stash_Reads [] rs h r = poll_times-Reads rs h r
  poll_times-stash_Reads {l = l} (n ∷ stash) {ns} rs h r =
      poll_times-poll_next (suc (length (stash ++ ns))) _ (poll_next-stash l n stash)
        (poll_times-stash_Reads stash rs h r)

  -- The connection gives notifications and then a response, and the fuel is above their number.
  -- After `recv_response`, polling the event stream yields what was in the stash and then these
  -- notifications, in order; polling the stream without `recv_response` yields the same
  -- notifications, then the response, and leaves the same stream. So nothing is lost.
  pub recv_response-poll_times :
      (fuel : ℕ) (s : EventStream L) {ns : List Notification} {l l' : L} {m : OvpnMessage}
      → Reads s.inner ns l
      → next l ≡ (l', item (ok m))
      → event_from m ≡ response m
      → length ns < fuel
      → let seen = s.stash ++ ns in
        (poll_times (length seen) (recv_response T fuel s).0
          ≡ (record { inner = l'; stash = [] }, notification_events seen))
        × (poll_times (suc (length seen)) s ≡ (
          record { inner = l'; stash = [] },
          notification_events seen ++ (event (response m) ∷ []),
        ))
  recv_response-poll_times fuel s {ns} {l} {l'} {m} rs n r lt = (
    rw (recv_response-Reads fuel s rs n (a_response m r) lt) (poll_times-stash l' (s.stash ++ ns)),
    poll_times-stash_Reads s.stash rs n r,
  )
