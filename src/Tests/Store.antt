-- ===== src/Tests/Store.antt =====
-- The file system store with one blob.
use catapulte.Common.{[], ◌∷◌, refl, true, ok, some, arith}
use catapulte.Entity.{BlobRef}
use catapulte.Port.Call.{After, Oracle, list_all_attachment_blobs, list_keys_older_than}
use catapulte.Port.Types.{PutResult}
use catapulte.Gc.{blob_of, sweep_once}
use catapulte.Gc.InUse.{Spared}
use catapulte.FsStore.{
  Disk, Entry, after_write, commit, is_older_than, names, put, remove_entry, rename,
  write_committed,
}
use catapulte.FsStore as FsStore
use catapulte.FsStore.Grace.{sweep_once-fresh}
use catapulte.FsStore.Key.{has_char, is_dangerous_key, starts_with_dot}
use catapulte.FsStore.RoundTrip.{Stored, none_fails, put-Stored}
use catapulte.Tests.Ports.{serving}

abbrev old_file : Entry
old_file = record { name = "old"; is_file = true; bytes = 9 ∷ []; mtime = some 0 }

abbrev disk : Disk
disk = record { root = old_file ∷ []; tmp = [] }

abbrev old_blob : BlobRef
old_blob = record { backend = "fs"; key = "old" }

put-Stored_example :
    Stored 90 "new" disk none_fails old_blob
      (ok (1 ∷ 2 ∷ []))
      (put none_fails 90 [] "tmp" "new" (ok (1 ∷ 2 ∷ [])) disk)
unfolding is_dangerous_key starts_with_dot has_char
put-Stored_example =
    put-Stored 90 "new" disk none_fails [] "tmp" (ok (1 ∷ 2 ∷ [])) old_blob refl refl refl

abbrev new_blob : PutResult
new_blob = record { blob = record { backend = "fs"; key = "new" }; size_bytes = 2 }

-- The store lists its old file, and no email refers to anything.
abbrev listing : Oracle
listing h (list_keys_older_than s) = ok ("old" ∷ [])
listing h list_all_attachment_blobs = ok []
listing h c = serving h c

sweep_once-fresh_example :
    After (λ _ h. Spared "fs" (blob_of "fs" "new") [] h) [] (sweep_once listing "fs" 60)
unfolding put after_write write_committed commit rename remove_entry is_older_than names
    starts_with_dot FsStore.list_keys_older_than
sweep_once-fresh_example =
    sweep_once-fresh listing 60 100 90 "new" "tmp" [] (ok (1 ∷ 2 ∷ [])) none_fails disk new_blob []
      (omega arith) (omega arith) refl refl
