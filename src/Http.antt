-- ===== src/Http.antt =====
-- core/http, core/request, core/response and core/renderers: requests, responses, and the libraries
-- that they stand on.
pub mod Libraries
pub mod Request
pub mod Renderer
pub mod Raw
pub mod Samples
