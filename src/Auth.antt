-- ===== src/Auth.antt =====
-- picomq/pico-auth and the spelling of names in picomq/pico-common: scopes, their narrowing when a
-- token is issued, and the authentication of requests.
pub mod Error
pub mod Name
pub mod Operation
pub mod Scope
pub mod Narrow
pub mod Prefix
pub mod Record
pub mod Same
pub mod Authorizer
pub mod Tests
