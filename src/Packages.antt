-- ===== src/Packages.antt =====
-- internal/packages: the package inventory. The databases are read from texts; a text is a list of
-- the runes of its valid UTF-8.
pub mod Normalize
pub mod Collect
pub mod Linux
pub mod Desktop
use siembox_endpoint.Prelude.{Bytes}

-- `models.Package`; `kind` is its `Type`.
pub record Package : Type 0 where
  pub name : Bytes
  pub version : Bytes
  pub kind : Bytes
