-- ===== src/Core.antt =====
-- Parts of core that stand alone: core/helpers/Offload.h, core/configs, core/openapi, core/multipart,
-- core/hashers and helpers/DatetimeConverter.h.
pub mod Offload
pub mod Config
pub mod OpenApi
pub mod Multipart
pub mod Hasher
pub mod Datetime
pub mod Tests
