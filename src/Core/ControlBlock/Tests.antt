-- ===== src/Core/ControlBlock/Tests.antt =====
-- A control block of zeros.
use pucrs_metadata_db.Dbio.DataBlock.{DataBlock}

abbrev blank : DataBlock
blank = record { id = 0; contents = record { len = 4096; byte = λ _. 0 } }
