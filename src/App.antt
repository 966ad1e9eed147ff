-- ===== src/App.antt =====
-- The program put together: routes/Routes.cpp, di/AppContext.cpp and core/bootstrap.cpp.
pub mod Controllers
pub mod Routes
pub mod Session
pub mod Isolation
pub mod Wiring
pub mod Schemas
pub mod Samples
pub mod Tests
