-- ===== src/Api/GrpcServer/Agreement.antt =====
-- The gRPC service and the REST routes beside each other.
use forge_sight.Prelude.{
  ◌≡◌, ◌≢◌, refl, ap, inl, inr, ℕ, false, Option, none, some, [], Text, lit, ◌∷◌, text_eq,
  text_eq_iff, ℤ, pos, int_eq, Doubles, Bool-cases,
}
use forge_sight.Database.{Server, Session}
use forge_sight.Api.Routes.{
  Route, get_devices, get_alarms, get_history_of, post_ack, Request, Payload, devices, readings,
  alarms, ok_flag,
}
use forge_sight.Api.GrpcServer.{
  Rpc, list_devices_rpc, get_history_rpc, list_alarms_rpc, acknowledge_alarm_rpc, GrpcReply,
  unauthenticated, device_list, reading_list, alarm_list, ack_reply, authorized, serve_rpc,
}

-- The message with what a route answers.
pub reply_of : {D : Type 0} → Payload D → GrpcReply D
reply_of (devices found) = device_list found
reply_of (readings found) = reading_list found
reply_of (alarms found) = alarm_list found
reply_of (ok_flag b) = ack_reply b
reply_of _ = unauthenticated

-- The number of points that a call and the query of a request ask for: the same number other than 0, or
-- none, which is 0 in the call.
pub data SamePoints (to_int : Text → Option ℤ) : Text → ℤ → Type 0 where
  asks_none : SamePoints to_int [] (pos 0)
  asks_for :
      (d : ℕ) (digits : Text) (n : ℤ)
      → to_int (d ∷ digits) ≡ some n
      → int_eq n (pos 0) ≡ false
      → SamePoints to_int (d ∷ digits) n

-- A call and a request for a route that ask for the same.
pub data SameRequest (to_long_long to_int : Text → Option ℤ) (r : Request)
    : Rpc → Route → Type 0 where
  same_devices : SameRequest to_long_long to_int r list_devices_rpc get_devices
  same_alarms : SameRequest to_long_long to_int r (list_alarms_rpc false) get_alarms
  same_history :
      (dev sen : Text) (n : ℤ)
      → SamePoints to_int (r.query (lit "max_points")) n
      → SameRequest to_long_long to_int r
          (get_history_rpc dev sen (r.query (lit "since")) n)
          (get_history_of dev sen)
  same_ack :
      (arg : Text) (id : ℤ)
      → to_long_long arg ≡ some id
      → SameRequest to_long_long to_int r (acknowledge_alarm_rpc id) (post_ack arg)

-- The header of a request for the metadata of a call.
abbrev pub header_of : Option Text → Text
header_of none = []
header_of (some key) = key

module _ (F : Doubles) (S : Server (F.Double)) where
  open S use {World}

  not_authorized_rpc :
      (api_key : Text) (key : Option Text)
      → api_key ≢ []
      → key ≢ some api_key
      → authorized api_key key ≡ false
  unfolding authorized
  not_authorized_rpc [] key h k = absurd (h refl)
  not_authorized_rpc (c ∷ api_key) none h k = refl
  not_authorized_rpc (c ∷ api_key) (some key) h k = elim (Bool-cases (text_eq key (c ∷ api_key))) [
    | inl e ↦ absurd (k (ap some ((text_eq_iff key (c ∷ api_key)).0 e)))
    | inr e ↦ e
  ]

  -- If the service has an API key and the metadata of a call has another or none, the call ends as
  -- unauthenticated and the database is not touched.
  pub serve_rpc_refuses :
      (api_key : Text) (c : Option Session) (key : Option Text) (rpc : Rpc) (w : World)
      → api_key ≢ []
      → key ≢ some api_key
      → serve_rpc F S api_key c key rpc w ≡ (unauthenticated, w)
  unfolding serve_rpc
  serve_rpc_refuses api_key c key rpc w h k = rw (not_authorized_rpc api_key key h k) refl
