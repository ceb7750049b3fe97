-- ===== src/Api/GrpcServer.antt =====
-- ServiceImpl of api/src/grpc_server.cpp: its four calls, which a mutex keeps apart, so that each is one
-- step. The messages of the generated stubs are the services' own records.
pub mod Agreement
use forge_sight.Prelude.{
  Bool, true, false, not, Option, none, some, List, Text, text_eq, is_empty, ℤ, pos, int_eq,
  Doubles, if◌then◌else◌,
}
use forge_sight.Ingestion.Reading.{Reading}
use forge_sight.Database.{Server, Session, Run, pure, ◌>>=◌}
use forge_sight.AlarmEngine.Types.{Alarm}
use forge_sight.Api.DeviceService.{DeviceInfo, list_devices, get_history}
use forge_sight.Api.RuleService.{list_alarms, acknowledge_service_alarm}
use forge_sight.Api.Routes.{since_or_epoch}

-- A call with the fields of its request: device_id, sensor, since and max_points; unacknowledged_only;
-- id.
pub data Rpc : Type 0 where
  list_devices_rpc : Rpc
  get_history_rpc : Text → Text → Text → ℤ → Rpc
  list_alarms_rpc : Bool → Rpc
  acknowledge_alarm_rpc : ℤ → Rpc

pub data GrpcReply (D : Type 0) : Type 0 where
  unauthenticated : GrpcReply D
  device_list : List (DeviceInfo D) → GrpcReply D
  reading_list : List (Reading D) → GrpcReply D
  alarm_list : List (Alarm D) → GrpcReply D
  ack_reply : Bool → GrpcReply D

-- The metadata x-api-key, if the client sends it.
unfoldable pub authorized : Text → Option Text → Bool
authorized api_key none = is_empty api_key
authorized api_key (some key) = if is_empty api_key then true else text_eq key api_key

unfoldable pub rpc_max_points : ℤ → ℤ
rpc_max_points n = if int_eq n (pos 0) then pos 1000 else n

module _ (F : Doubles) (S : Server (F.Double)) where
  open F use {Double}
  open S use {World}

  -- The calls after the lock is taken.
  unfoldable pub run_rpc : Option Session → Rpc → Run World (GrpcReply Double)
  unfolding rpc_max_points
  run_rpc c list_devices_rpc = do found ← list_devices F S c; pure (device_list found)
  run_rpc c (get_history_rpc dev sen since max_points) = do
    found ← get_history F S c dev sen (since_or_epoch since) (rpc_max_points max_points)
    pure (reading_list found)
  run_rpc c (list_alarms_rpc unacknowledged_only) = do
    found ← list_alarms F S c unacknowledged_only
    pure (alarm_list found)
  run_rpc c (acknowledge_alarm_rpc id) = do
    done ← acknowledge_service_alarm F S c id
    pure (ack_reply done)

  unfoldable pub serve_rpc :
      Text → Option Session → Option Text → Rpc → Run World (GrpcReply Double)
  unfolding run_rpc
  serve_rpc api_key c key rpc =
      if not (authorized api_key key) then pure unauthenticated else run_rpc c rpc
