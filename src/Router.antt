-- ===== src/Router.antt =====
-- router/: authentication, and the HTTP and gRPC proxies that guard the fee recipients.
pub mod Auth
pub mod World
pub mod Judged
pub mod Entitled
pub mod Agreed
pub mod Http
pub mod Grpc
