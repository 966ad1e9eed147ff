-- ===== src/Users.antt =====
-- The users of the service: filters, serializers, repository, service and controllers, under
-- filters/users, serializers, repositories/users, services and controllers.
pub mod Filters
pub mod Serializers
pub mod Repository
pub mod Service
pub mod Controller
pub mod Tests
