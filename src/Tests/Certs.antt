-- ===== src/Tests/Certs.antt =====
-- Runs of certsync over a store in memory.
use Prim.Native.String.{◌++◌ as ◌+++◌}
use tsserve.Base.{
  String, ◌≡◌, refl, ◌⊎◌, Bool, true, false, none, some, List, [], ◌∷◌, ◌++◌, Map, length, lookup,
  delete, contains, ok,
}
use tsserve.Base.Text.{contains_text}
use tsserve.Certs.Names.{Syncer, new_syncer, is_cert_file, object_key, file, write_failed}
use tsserve.Certs.Hydrate.{Faults, hydrate, Pages}
use tsserve.Certs.Hydrate.Restored.{Kept}
use tsserve.Certs.Hydrate.Passes.{hydrate-Kept}
use tsserve.Certs.Sweep.{Scan, sync_all}
use tsserve.Certs.RoundTrip.{file_after, hydrate-got, sync_all-hydrate}
use tsserve.Certs.Loop.{Op, Input, canceled, changed, watch_error, fired, base_name, run}
use tsserve.Certs.Loop.Laws.{run-stored, run-fired_stored}
use tsserve.Certs.Loop.Mirrored.{MirroredBy, run-Mirrored}
use tsserve.Tests.CertStore.{memory, memory-Contract, with_prefix}

abbrev syncer : Syncer
syncer = record { dir = "state/certs"; bucket = "certs"; prefix = "prod/"; watching = true }

abbrev no_faults : Faults
no_faults = record { write_fault = λ name. none; rename_fault = λ name. none }

-- The disk is full for one file.
abbrev full_for_a : Faults
full_for_a = record {
  write_fault = λ name.
      lookup name (("a.crt.tmp", record { left = some "partial"; cause = "no space left" }) ∷ []);
  rename_fault = λ name. none;
}

abbrev bucket : Map String
bucket =
    ("prod/a.crt", "A")
    ∷ ("prod/b.key", "B")
    ∷ ("prod/notes.txt", "N")
    ∷ ("prod/x/c.crt", "C")
    ∷ ("other", "O")
    ∷ []

new_syncer_run :
    new_syncer (record { dir = "d"; bucket = "b"; prefix = "/prod" }) none
    ≡ ok (record { dir = "d"; bucket = "b"; prefix = "prod/"; watching = false })
unfolding new_syncer
new_syncer_run = refl

hydrate_run :
    hydrate memory syncer full_for_a bucket 1 []
    ≡ some (
      ("b.key", file "B") ∷ ("a.crt.tmp", file "partial") ∷ [],
      write_failed "a.crt" "no space left" ∷ [],
    )
unfolding hydrate memory lookup
hydrate_run = refl

abbrev scan : Scan
scan = record {
  listing = ok (("a.crt", false) ∷ ("a.crt.tmp", false) ∷ ("old.crt", true) ∷ []);
  read = λ name. some (ok ("new " +++ name));
}

sync_all_run :
    (sync_all memory syncer scan (("prod/b.key", "B") ∷ [])).0
    ≡ ("prod/a.crt", "new a.crt") ∷ ("prod/b.key", "B") ∷ []
unfolding sync_all memory delete
sync_all_run = refl

listing_of :
    (m : Map String)
    → Pages memory syncer.bucket syncer.prefix m none (with_prefix syncer.prefix m ∷ [])
unfolding memory
listing_of m = Pages.last refl refl

-- The other file of the bucket is restored though the disk is full for the first.
hydrate-got_example :
    file_after "b.key"
      (hydrate memory syncer full_for_a bucket (length (with_prefix syncer.prefix bucket ∷ [])) [])
    ≡ some (file "B")
unfolding memory is_cert_file contains_text object_key
hydrate-got_example =
    hydrate-got memory memory-Contract syncer bucket full_for_a
      (with_prefix syncer.prefix bucket ∷ []) "b.key" "B" [] (listing_of bucket) refl refl refl
      (refl, refl) (λ n h. cc)

hydrate-Kept_example :
    Kept memory memory-Contract syncer full_for_a bucket "a.crt" []
      (("b.key", file "B") ∷ ("a.crt.tmp", file "partial") ∷ [])
unfolding is_cert_file
hydrate-Kept_example =
    hydrate-Kept memory memory-Contract syncer full_for_a bucket 1 "a.crt" []
      (
        ("b.key", file "B") ∷ ("a.crt.tmp", file "partial") ∷ [],
        write_failed "a.crt" "no space left" ∷ [],
      )
      refl hydrate_run

abbrev swept : Map String
swept = (sync_all memory syncer scan bucket).0

sync_all-hydrate_example :
    file_after "a.crt" (
      hydrate memory syncer no_faults
        (sync_all memory syncer scan bucket).0
        (length (with_prefix syncer.prefix (sync_all memory syncer scan bucket).0 ∷ []))
        [])
    ≡ some (file "new a.crt")
unfolding memory is_cert_file contains_text sync_all contains object_key delete
sync_all-hydrate_example =
    sync_all-hydrate memory memory-Contract syncer scan
      (("a.crt", false) ∷ ("a.crt.tmp", false) ∷ ("old.crt", true) ∷ []) no_faults
      (with_prefix syncer.prefix (sync_all memory syncer scan bucket).0 ∷ []) "a.crt" "new a.crt"
      "new a.crt" [] bucket refl refl refl refl refl refl
      (listing_of (sync_all memory syncer scan bucket).0) refl (refl, refl) (λ n h. cc)

abbrev written : Op
written = record { create = true; write = false; rename = false }

abbrev quiet_inputs : List Input
quiet_inputs = changed written "state/certs/a.crt.tmp" ∷ watch_error "overflow" ∷ []

abbrev entries : List (String × Bool)
entries = ("a.crt", false) ∷ ("a.crt.tmp", false) ∷ ("old.crt", true) ∷ []

run-stored_example :
    ((run memory syncer (quiet_inputs ++ canceled scan ∷ []) bucket).0 ≡ none)
    × ((run memory syncer (quiet_inputs ++ canceled scan ∷ []) bucket).1.returned ≡ true)
    × (memory-Contract.object syncer.bucket
          (run memory syncer (quiet_inputs ++ canceled scan ∷ []) bucket).1.store
          (object_key syncer "a.crt")
        ≡ some "new a.crt")
unfolding is_cert_file contains memory
run-stored_example =
    run-stored memory memory-Contract syncer quiet_inputs scan entries "a.crt" "new a.crt" bucket
      refl (refl, (refl, tt)) refl refl refl refl (λ b. refl)

run-fired_stored_example :
    memory-Contract.object syncer.bucket
      (run memory syncer
        (quiet_inputs
          ++ changed written "state/certs/a.crt" ∷ (quiet_inputs ++ fired false scan ∷ []))
        bucket).1.store
      (object_key syncer "a.crt")
    ≡ some "new a.crt"
unfolding base_name is_cert_file contains memory
run-fired_stored_example =
    run-fired_stored memory memory-Contract syncer quiet_inputs quiet_inputs written
      "state/certs/a.crt" scan entries "a.crt" "new a.crt" bucket refl (refl, (refl, tt)) refl
      (refl, (refl, tt)) refl refl refl refl (λ b. refl)

run-Mirrored_example :
    (memory-Contract.object "certs"
        (run memory syncer (canceled scan ∷ []) bucket).1.store
        "prod/a.crt"
      ≡ memory-Contract.object "certs" bucket "prod/a.crt")
    ⊎ MirroredBy syncer (canceled scan ∷ []) "prod/a.crt" (
        memory-Contract.object "certs"
          (run memory syncer (canceled scan ∷ []) bucket).1.store
          "prod/a.crt")
run-Mirrored_example =
    run-Mirrored memory memory-Contract syncer (canceled scan ∷ []) "prod/a.crt" bucket
