-- ===== src/Fixture.antt =====
-- The Go test fixture: go/fixture. The uploads of archives, the ledger's administration and the
-- allocation of parties are left out.
pub mod TokenProvider
