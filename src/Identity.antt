-- ===== src/Identity.antt =====
-- src/domain/upstream-domains/identity: the roles and the authorization of a token.
pub mod Roles
pub mod Throttle
pub mod Scopes
pub mod Fingerprints
pub mod AuthChallenge
pub mod Challenges
pub mod AccessToken
pub mod Tokens
pub mod Authorization
