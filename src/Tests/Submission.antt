-- ===== src/Tests/Submission.antt =====
-- Submissions.
use catapulte.Common.{[], ◌∷◌, ◌≡◌, refl, ok, none, some}
use catapulte.Entity.{EmailId, to}
use catapulte.Entity.Body.{BodySource}
use catapulte.SubmitEmail.{
  SubmitEmailInput, inline, remote, execute, submit_saved, submit_created, store_attachments,
  open_reader, patch_attachments, enqueue_email, roll_back,
}
use catapulte.SubmitEmail.RollBack.{CleanedUp}
use catapulte.SubmitEmail.Failure.{execute-CleanedUp}
use catapulte.SubmitEmail.Progress.{execute_ok, IsServing}
use catapulte.Tests.Ports.{blob, plain, serving, no_queue}

abbrev id : EmailId
id = record { uuid = 7 }

abbrev input : SubmitEmailInput
input = record {
  idempotency_key = none;
  correlation_id = some "c1";
  subject = none;
  sender = "a@example.com";
  recipients = (to, "b@example.com") ∷ [];
  body = BodySource.plain plain;
  variables = "{}";
  attachments =
      inline "a.txt" "text/plain" (1 ∷ 2 ∷ 3 ∷ []) ∷ remote "b.txt" "text/plain" "https://x/b" ∷ [];
}

execute-CleanedUp_example : CleanedUp no_queue id [] (execute no_queue id input []).1
unfolding execute submit_saved submit_created store_attachments open_reader patch_attachments
    enqueue_email roll_back
execute-CleanedUp_example = execute-CleanedUp no_queue id input [] refl refl

serving-IsServing : IsServing serving
serving-IsServing = record {
  saves = λ h id e. (id, refl);
  fetches = λ h url. (ok (1 ∷ []), refl);
  stores = λ h r. (record { blob = blob; size_bytes = 3 }, refl);
  patches = λ h id refs. refl;
  queues = λ h id e. refl;
}

execute_ok_example : (execute serving id input []).0 ≡ ok id
execute_ok_example = execute_ok serving serving-IsServing id input []
