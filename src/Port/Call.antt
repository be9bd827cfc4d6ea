-- ===== src/Port/Call.antt =====
-- The methods of the port traits as data. An implementation of the traits is an oracle: it answers
-- a call from the whole history of the calls before it, so it may keep any state and fail at any
-- time. A service is an action, which reads the history (newest call first) and extends it.
use catapulte.Common.{ℕ, String, List, ◌∷◌, Bool, Result}
use catapulte.Common.Int.{ℤ}
use catapulte.Entity.{AnyError, AttachmentRef, BlobRef, EmailId, Envelope, Url, Variables}
use catapulte.Entity.Body.{BodySource, ResolvedBody, InterpolatedBody, RenderedBody}
use catapulte.Entity.LifecycleEvent.{LifecycleEvent}
use catapulte.Entity.Sender.{SenderName}
use catapulte.Port.Types.{
  AckToken, AttachmentFetchError, AttachmentReader, AttachmentStoreError, EmailQueueError,
  EmailRepositoryError, EventPublisherError, InterpolateError, OutboundEmail, PutResult,
  RenderError, ResolveError, SaveResult, SenderStats, SenderUsageError,
}

-- The transport object of a route, by its identity.
abbrev pub Transport : Type 0
Transport = ℕ

pub data Call : Type 0 where
  -- EmailRepository
  save : EmailId → Envelope → Call
  set_attachments : EmailId → List AttachmentRef → Call
  delete_email : EmailId → Call
  list_all_attachment_blobs : Call
  -- EmailQueue, the delay in seconds
  enqueue : EmailId → Envelope → Call
  ack : AckToken → Call
  nack : AckToken → ℕ → Call
  -- EventPublisher
  publish : LifecycleEvent → Call
  -- AttachmentStore, AttachmentFetcher and the listing of the store that the collector sweeps
  put : AttachmentReader → Call
  get : BlobRef → Call
  delete_blob : BlobRef → Call
  fetch : Url → Call
  list_keys_older_than : ℕ → Call
  -- TemplateResolver, TemplateInterpolator, TemplateRenderer
  resolve : BodySource → Call
  interpolate : ResolvedBody → Variables → Call
  render : InterpolatedBody → Call
  -- EmailTransport, SenderUsage, Clock, CancellationToken
  deliver : Transport → OutboundEmail → Call
  get_stats : List SenderName → ℤ → Call
  now_ms : Call
  is_cancelled : Call

-- What each method returns.
abbrev pub Answer : Call → Type 0
Answer (save _ _) = Result SaveResult EmailRepositoryError
Answer (set_attachments _ _) = Result (Unit {0}) EmailRepositoryError
Answer (delete_email _) = Result (Unit {0}) EmailRepositoryError
Answer list_all_attachment_blobs = Result (List BlobRef) EmailRepositoryError
Answer (enqueue _ _) = Result (Unit {0}) EmailQueueError
Answer (ack _) = Result (Unit {0}) EmailQueueError
Answer (nack _ _) = Result (Unit {0}) EmailQueueError
Answer (publish _) = Result (Unit {0}) EventPublisherError
Answer (put _) = Result PutResult AttachmentStoreError
Answer (get _) = Result AttachmentReader AttachmentStoreError
Answer (delete_blob _) = Result (Unit {0}) AttachmentStoreError
Answer (fetch _) = Result AttachmentReader AttachmentFetchError
Answer (list_keys_older_than _) = Result (List String) AnyError
Answer (resolve _) = Result ResolvedBody ResolveError
Answer (interpolate _ _) = Result InterpolatedBody InterpolateError
Answer (render _) = Result RenderedBody RenderError
Answer (deliver _ _) = Result (Unit {0}) AnyError
Answer (get_stats _ _) = Result (List SenderStats) SenderUsageError
Answer now_ms = ℤ
Answer is_cancelled = Bool

-- The calls made so far, the newest first.
abbrev pub History : Type 0
History = List Call

abbrev pub Oracle : Type 0
Oracle = (h : History) (c : Call) → Answer c

abbrev pub Exec : Type 0 → Type 0
Exec A = History → A × History

abbrev pub ret : {A : Type 0} → A → Exec A
ret a h = (a, h)

abbrev pub ask : Oracle → (c : Call) → Exec (Answer c)
ask o c h = (o h c, c ∷ h)

infixl 5 ◌>>=◌ ◌>>◌
abbrev pub ◌>>=◌ : {A B : Type 0} → Exec A → (A → Exec B) → Exec B
◌>>=◌ m f h = let (a, h') = m h in f a h'

abbrev pub ◌>>◌ : {A B : Type 0} → Exec A → Exec B → Exec B
m >> n = m >>= λ _. n

-- `P` holds of what `m` returns, and of the history that it leaves, from the history `h` on.
abbrev pub After : {A : Type 0} → (A → History → Type 0) → History → Exec A → Type 0
After P h m = P (m h).0 (m h).1
