-- ===== src/Tests/Ports.antt =====
-- Ports for the runs: one set that serves every call, and variants in which one port fails.
use catapulte.Common.{[], ◌∷◌, ok, err, none, some, false}
use catapulte.Common.Int.{pos}
use catapulte.Entity.{BlobRef}
use catapulte.Entity.Body.{Plain, ResolvedBody, InterpolatedBody}
use catapulte.Port.Types
use catapulte.Port.Types.{PutResult, created, not_found}
use catapulte.Port.Call.{
  Oracle, save, set_attachments, delete_email, list_all_attachment_blobs, enqueue, ack, nack,
  publish, put, get, delete_blob, fetch, list_keys_older_than, resolve, interpolate, render,
  deliver, get_stats, now_ms, is_cancelled,
}

abbrev pub blob : BlobRef
blob = record { backend = "fs"; key = "k1" }

abbrev pub plain : Plain
plain = record { text = some "hi"; html = none }

abbrev pub serving : Oracle
serving h (save id e) = ok (created id)
serving h (set_attachments id refs) = ok tt
serving h (delete_email id) = ok tt
serving h list_all_attachment_blobs = ok []
serving h (enqueue id e) = ok tt
serving h (ack token) = ok tt
serving h (nack token delay) = ok tt
serving h (publish e) = ok tt
serving h (put r) = ok (record { blob = blob; size_bytes = 3 })
serving h (get b) = ok (ok (1 ∷ 2 ∷ 3 ∷ []))
serving h (delete_blob b) = ok tt
serving h (fetch url) = ok (ok (1 ∷ []))
serving h (list_keys_older_than s) = ok []
serving h (resolve b) = ok (ResolvedBody.plain plain)
serving h (interpolate b v) = ok (InterpolatedBody.plain plain)
serving h (render b) = ok (record { into_plain = plain })
serving h (deliver t e) = ok tt
serving h (get_stats names since) = ok []
serving h now_ms = pos 1000
serving h is_cancelled = false

-- The queue is down.
abbrev pub no_queue : Oracle
no_queue h (enqueue id e) = err (Types.EmailQueueError.storage "down")
no_queue h c = serving h c

-- No transport accepts an email, and the usage port is down.
abbrev pub no_smtp : Oracle
no_smtp h (deliver t e) = err "refused"
no_smtp h (get_stats names since) = err (Types.SenderUsageError.storage "down")
no_smtp h c = serving h c
