-- ===== src/Realtime/Delivery.antt =====
-- A report that was queued stays queued until the server acknowledges it.
use smart_form.Base.{String, ◌≡◌, some, List}
use smart_form.Contracts.Protocol.{AgentCommand}
use smart_form.Database.{Tables, OutboxRecord}
use smart_form.Database.Outbox.{queued}

abbrev IsQueued : String → OutboxRecord → Tables → List AgentCommand → Type 0
IsQueued id row db ks = queued id db ≡ some row
