-- ===== src/Users.antt =====
-- The user domain: entity and repository interface (internal/domain), the repository over GORM
-- (internal/repository/db), the use case (internal/usecase/user_usecase.go) and its HTTP handler
-- (internal/delivery/http/handler/user_handler.go).
pub mod Entity
pub mod Repository
pub mod UseCase
pub mod Handler
