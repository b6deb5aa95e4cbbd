-- ===== src/Domain.antt =====
-- domain/models.py and domain/authority.py: the data that the services share. An identifier made by
-- `uuid4` is a number, and a `datetime` is the number of microseconds of its instant.
pub mod Panel
pub mod Work
pub mod Registry
pub mod Shadow
pub mod Authority
