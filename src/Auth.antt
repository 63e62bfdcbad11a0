-- ===== src/Auth.antt =====
-- Users, roles and their privileges: internal/entity/user.go and
-- internal/master/services/role_service.go.
pub mod Model
pub mod Names
pub mod Access
pub mod Roles
