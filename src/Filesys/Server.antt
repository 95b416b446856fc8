-- ===== src/Filesys/Server.antt =====
-- filesys/network_server.cpp: the four handlers of requests, from the text of the request to the
-- call of the file system. What is sent back is the value: `none` is the result -1, after which the
-- connection is closed. Receiving and sending are in Connection.antt.
pub mod Serving
use operation_system_proj_c.Prelude.{Option, none, some, List, ℕ}
use operation_system_proj_c.Filesys.Types.{Command}
use operation_system_proj_c.Filesys.Disk.{DiskApi}
use operation_system_proj_c.Filesys.Monad.{Fs, M, Outcome, returns, throws, aborts}
use operation_system_proj_c.Filesys.ReadWrite.{handle_read, handle_write}
use operation_system_proj_c.Filesys.Create.{handle_create}
use operation_system_proj_c.Filesys.Delete.{handle_delete}
use operation_system_proj_c.Filesys.Request.{parse_message}

-- `catch (...) { return -1; }`
unfoldable pub catch_all : {D A : Type 0} → Outcome A × Fs D → Outcome (Option A) × Fs D
catch_all (returns a, s) = (returns (some a), s)
catch_all (throws e, s) = (returns none, s)
catch_all (aborts, s) = (aborts, s)

-- The call of the file system, with what the parser has returned or an exception.
unfoldable pub serve_parsed : {D A : Type 0} → Option Command → (Command → M D A) → M D (Option A)
serve_parsed none handle s = (returns none, s)
serve_parsed (some command) handle s = catch_all (handle command s)

-- A handler: parse the text, and call the file system.
unfoldable pub serve : {D A : Type 0} → Command → List ℕ → (Command → M D A) → M D (Option A)
serve fresh request_str handle s = elim (parse_message fresh request_str) [
  | none ↦ (aborts, s)
  | some parsed ↦ serve_parsed parsed handle s
]

module _ ⦃api : DiskApi⦄ where
  open api use {Disk, Block}

  unfoldable pub serve_read : Command → List ℕ → M Disk (Option Block)
  serve_read fresh request_str = serve fresh request_str handle_read

  -- The part of a write after the parser; `received` is the block that the client sends, or `none`
  -- if `recv` fails, which is the result -1 as well.
  unfoldable pub write_received : Option Block → Command → M Disk (Option (Unit {0}))
  write_received none command s = (returns none, s)
  write_received (some content) command s = catch_all (handle_write command content s)

  unfoldable pub write_parsed : Option Command → Option Block → M Disk (Option (Unit {0}))
  write_parsed none received s = (returns none, s)
  write_parsed (some command) received s = write_received received command s

  unfoldable pub serve_write : Command → List ℕ → Option Block → M Disk (Option (Unit {0}))
  serve_write fresh request_str received s = elim (parse_message fresh request_str) [
    | none ↦ (aborts, s)
    | some parsed ↦ write_parsed parsed received s
  ]

  unfoldable pub serve_create : Command → List ℕ → M Disk (Option (Unit {0}))
  serve_create fresh request_str = serve fresh request_str handle_create

  unfoldable pub serve_delete : Command → List ℕ → M Disk (Option (Unit {0}))
  serve_delete fresh request_str = serve fresh request_str handle_delete
