-- ===== src/Auth.antt =====
-- services/jwt and middlewares: tokens, and the middleware that asks for them.
pub mod Jwt
pub mod Middleware
pub mod Gate
pub mod Refusal
pub mod Isolation
pub mod Tests
