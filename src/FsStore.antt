-- ===== src/FsStore.antt =====
-- adapter/outbound-attachment-fs/src/store.rs: attachments as files of one directory. The state is that
-- directory and its `.tmp`; each call of the file system may fail, and which ones fail is an argument of
-- an operation, by their position from 0; reading a directory fails as a whole. Names, times and what a failed copy leaves are arguments too.
pub mod Key
pub mod Failure
pub mod RoundTrip
pub mod Grace
use catapulte.Common.{
  ℕ, suc, ◌+◌, ◌-◌, String, List, [], ◌∷◌, ◌++◌, Bool, true, false, not, ◌&&◌, ◌||◌, Option, none,
  some, Result, ok, err, filter, leb, ltb, length, str_eq, if◌then◌else◌,
}
use catapulte.Entity.{AnyError, BlobRef, Bytes}
use catapulte.Port.Types.{AttachmentReader, AttachmentStoreError, PutResult, io, not_found}
use Key.{is_dangerous_key, starts_with_dot}

-- A directory entry: a plain file with its bytes, or anything else. A time is in milliseconds; `mtime`
-- may be missing.
pub record Entry : Type 0 where
  pub name : String
  pub is_file : Bool
  pub bytes : Bytes
  pub mtime : Option ℕ

-- The entries of the root but for `.tmp`, and those of `<root>/.tmp`.
pub record Disk : Type 0 where
  pub root : List Entry
  pub tmp : List Entry

unfoldable pub find_entry : String → List Entry → Option Entry
find_entry name [] = none
find_entry name (e ∷ es) = if str_eq e.name name then some e else find_entry name es

unfoldable pub remove_entry : String → List Entry → List Entry
remove_entry name entries = filter (λ e. not (str_eq e.name name)) entries

abbrev pub file : String → Bytes → ℕ → Entry
file name bytes at = record { name = name; is_file = true; bytes = bytes; mtime = some at }

-- `rename(tmp_path, final_path)`, which replaces what has the name.
unfoldable pub rename : String → Entry → Disk → Disk
rename key e disk = record {
  root = remove_entry key disk.root ++ record e { name = key } ∷ [];
  tmp = remove_entry e.name disk.tmp;
}

-- The steps of `write_committed` behind the copy, with the temporary file `e`.
unfoldable pub commit : (ℕ → Bool) → String → Entry → Disk → Result ℕ AttachmentStoreError × Disk
commit fails key e disk =
    if fails 2
    then (err (io "failed to flush tmp file"), disk)
    else if fails 3
    then (err (io "failed to fsync tmp file"), disk)
    else if fails 4
    then (err (io "failed to rename tmp file to final path"), disk)
    else if fails 5
    then (err (io "failed to open root dir for fsync"), rename key e disk)
    else if fails 6
    then (err (io "failed to fsync root directory"), rename key e disk)
    else (ok (length e.bytes), rename key e disk)

abbrev pub with_tmp : Entry → Disk → Disk
with_tmp e disk = record disk { tmp = remove_entry e.name disk.tmp ++ e ∷ [] }

-- `write_committed`, on unix; `part` is what a copy that fails has written.
unfoldable pub write_committed :
    (ℕ → Bool)
    → ℕ
    → Bytes
    → String
    → String
    → AttachmentReader
    → Disk
    → Result ℕ AttachmentStoreError × Disk
write_committed fails at part tmp_name key reader disk =
    if fails 0 then (err (io "failed to create tmp file"), disk) else elim reader [
      | err _ ↦ (err (io "failed to write to tmp file"), with_tmp (file tmp_name part at) disk)
      | ok bytes ↦
          if fails 1
          then (err (io "failed to write to tmp file"), with_tmp (file tmp_name part at) disk)
          else commit fails key (file tmp_name bytes at) (with_tmp (file tmp_name bytes at) disk)
    ]

-- What `put` does with the outcome: after an error it removes the temporary file, if it can.
unfoldable pub after_write :
    (ℕ → Bool)
    → String
    → String
    → Result ℕ AttachmentStoreError × Disk
    → Result PutResult AttachmentStoreError × Disk
after_write fails tmp_name key (ok size, disk) =
    (ok (record { blob = record { backend = "fs"; key = key }; size_bytes = size }), disk)
after_write fails tmp_name key (err e, disk) =
    (err e, if fails 7 then disk else record disk { tmp = remove_entry tmp_name disk.tmp })

-- `put` under the two names that it draws.
unfoldable pub put :
    (ℕ → Bool)
    → ℕ
    → Bytes
    → String
    → String
    → AttachmentReader
    → Disk
    → Result PutResult AttachmentStoreError × Disk
put fails at part tmp_name key reader disk =
    after_write fails tmp_name key (write_committed fails at part tmp_name key reader disk)

-- A reader of an entry: reading what is no file fails.
abbrev pub read_entry : Entry → AttachmentReader
read_entry e = if e.is_file then ok e.bytes else err "is a directory"

-- `get`. The empty key is the root itself.
unfoldable pub get : (ℕ → Bool) → BlobRef → Disk → Result AttachmentReader AttachmentStoreError
get fails blob disk =
    if is_dangerous_key blob.key
    then err not_found
    else if fails 0
    then err (io "failed to open blob file")
    else if str_eq blob.key ""
    then ok (err "is a directory")
    else elim (find_entry blob.key disk.root) [ some e ↦ ok (read_entry e) | none ↦ err not_found ]

-- `delete`, for which a missing file is no error, and what is no file cannot be removed.
unfoldable pub delete : (ℕ → Bool) → BlobRef → Disk → Result (Unit {0}) AttachmentStoreError × Disk
delete fails blob disk =
    if is_dangerous_key blob.key
    then (err not_found, disk)
    else if fails 0 || str_eq blob.key ""
    then (err (io "failed to delete blob file"), disk)
    else elim (find_entry blob.key disk.root) [
      | none ↦ (ok tt, disk)
      | some e ↦
          if e.is_file
          then (ok tt, record disk { root = remove_entry blob.key disk.root })
          else (err (io "failed to delete blob file"), disk)
    ]

-- The name of an entry that is listed: neither hidden nor anything but a file.
abbrev pub is_listed : Entry → Bool
is_listed e = not (starts_with_dot e.name) && e.is_file

unfoldable pub names : List Entry → List String
names [] = []
names (e ∷ es) = let rest = names es in if is_listed e then e.name ∷ rest else rest

unfoldable pub list_keys : (ℕ → Bool) → Disk → Result (List String) AnyError
list_keys fails disk = if fails 0 then err "failed to read directory" else ok (names disk.root)

-- `modified.elapsed().unwrap_or(ZERO) >= age`; an entry without a time is new.
unfoldable pub is_older_than : ℕ → ℕ → Entry → Bool
is_older_than now age e = elim e.mtime [ some at ↦ leb age (now - at) | none ↦ false ]

unfoldable pub list_keys_older_than : (ℕ → Bool) → ℕ → ℕ → Disk → Result (List String) AnyError
list_keys_older_than fails now age disk =
    if fails 0
    then err "failed to read directory"
    else ok (names (filter (is_older_than now age) disk.root))

-- `modified.elapsed().unwrap_or(MAX) >= older_than`
unfoldable pub is_stale : ℕ → ℕ → Entry → Bool
is_stale now older_than e = elim e.mtime [
  | some at ↦ ltb now at || leb older_than (now - at)
  | none ↦ false
]

-- The loop over the temporary files; one that cannot be removed is left.
unfoldable pub clean_entries : (ℕ → Bool) → ℕ → ℕ → ℕ → List Entry → ℕ × List Entry
clean_entries fails n now older_than [] = (0, [])
clean_entries fails n now older_than (e ∷ es) =
    let (removed, left) = clean_entries fails (suc n) now older_than es in
    if is_stale now older_than e && not (fails n) then (suc removed, left) else (removed, e ∷ left)

unfoldable pub cleanup_temp : (ℕ → Bool) → ℕ → ℕ → Disk → Result ℕ AnyError × Disk
cleanup_temp fails now older_than disk =
    if fails 0
    then (err "failed to read tmp directory", disk)
    else (let (removed, left) = clean_entries fails 1 now older_than disk.tmp in
        (ok removed, record disk { tmp = left }))
