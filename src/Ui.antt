-- ===== src/Ui.antt =====
-- ui/: the models behind the dashboard's views, the WebSocket client and the text helpers.
pub mod AlarmModel
pub mod DeviceModel
pub mod DeviceFilterModel
pub mod WsClient
pub mod Csv
pub mod ApiClient
pub mod OfflineCache
pub mod Dashboard
pub mod PlantLayout
pub mod PlantSceneModel
pub mod PlantInstancing
