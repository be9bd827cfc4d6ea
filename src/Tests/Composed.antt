-- ===== src/Tests/Composed.antt =====
-- A worker with its processing and its routes.
use catapulte.Common.{[]}
use catapulte.Pipeline.{handle}
use catapulte.Pipeline.Deliveries.{HandledOnce, handle-HandledOnce}
use catapulte.Tests.Ports.{serving}
use catapulte.Tests.Delivery.{envelope, id, keep_order, kept, reason, token}

handle-HandledOnce_example :
    HandledOnce serving 1 token [] (handle serving keep_order kept reason id envelope 1 token []).1
handle-HandledOnce_example =
    handle-HandledOnce serving keep_order kept reason id envelope 1 token []
