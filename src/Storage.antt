-- ===== src/Storage.antt =====
-- The storage interface of storage/base.py as the models call it. The backend is a plugin that the
-- configuration names (`FILES_REST_STORAGE_FACTORY`), so its methods are a parameter of the models;
-- the helpers that every backend shares are modelled in Storage/Writing.antt.
pub mod Writing
pub mod Bounds
pub mod Pyfs
pub mod Laws
pub mod Copying
pub mod Saving
pub mod Factory
mod Tests
use invenio_files_rest.Prelude.{ℕ, String, Option, List}
use invenio_files_rest.Prelude.Int.{ℤ}
use invenio_files_rest.Schema.{FileInstance, FileSizeLimit}
use invenio_files_rest.Session.{Result}
use invenio_files_rest.Storage.Writing.{Stream}

-- `FileInstance.storage()`: what each method returns, or the exception that it raises, for the file
-- instance as it then is, and the URI of the bucket's location and its storage class where the
-- models pass them.
pub record Backend : Type 0 where
  -- `initialize(size)`: the URI, the size and the checksum.
  pub initialize : FileInstance → ℕ → Result (String × ℕ × Option String)
  -- `save(stream, size, size_limit)`
  pub save :
      FileInstance → Stream → Option ℤ → Option FileSizeLimit → Result (String × ℕ × Option String)
  -- `update(stream, seek, size)`: the number of bytes written and their checksum.
  pub update : FileInstance → Stream → ℕ → Option ℤ → Result (ℕ × Option String)
  -- `checksum()`
  pub checksum : FileInstance → Result (Option String)
  -- `copy(source)`
  pub copy : FileInstance → FileInstance → Result (String × ℕ × Option String)
  -- `delete()`
  pub delete : FileInstance → Result (Unit {0})
