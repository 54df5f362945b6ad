-- ===== src/Shared/Ipfs/Stored.antt =====
-- What is uploaded is what comes back.
use blindference.Prelude.{some, some}
use blindference.Async.{Async}
