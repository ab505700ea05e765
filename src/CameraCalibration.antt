-- ===== src/CameraCalibration.antt =====
-- services/camera-calibration: the cameras of a tenant, their calibration profiles, and the lens
-- profiles of the supported models.
pub mod Domain
pub mod Store
pub mod Service
pub mod Http
pub mod Main
pub mod Security
pub mod Invariant
pub mod Status
pub mod Tests
