-- ===== src/Model.antt =====
-- app/model/preflight.go: the vocabulary of a preflight, its plan, the host it is compared with, and
-- the findings that come out. A record has the fields of the Go struct that the modelled code reads
-- or writes; the other fields are left out. A string is a `Text`, a list of bytes; an `int` that the
-- program never makes negative is an ℕ.
pub mod Outcome
pub mod Finding
pub mod Plan
pub mod Host
