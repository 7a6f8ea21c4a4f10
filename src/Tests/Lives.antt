-- ===== src/Tests/Lives.antt =====
-- Lives of files, and the service over the file system.
use storm_tape.Prelude.{
  ℕ, ◌≡◌, refl, inl, inr, Bool, true, false, ◌&&◌, ◌||◌, List, [], ◌∷◌, arith, All, In, Text, ◌==◌,
  ==_iff, if◌then◌else◌, ap,
}
use storm_tape.Model.{PhysicalPath}
use storm_tape.Path.{text}
use storm_tape.Host.{Kernel, SetCalls, SysCall, ret, errno, tsm_rect}
use storm_tape.Storage.{Storage, value, fresh, locality}
use storm_tape.Storage.Local.{
  local_storage, attribute, stat_locality, migrated, locality-local_storage,
}
use storm_tape.Database.Session.{World, ok}
use storm_tape.Service.{TapeService}
use storm_tape.Service.Recall.{take_over}
use storm_tape.Service.Calls.{Call, stages, statuses, takes_over, cancels}
use storm_tape.Service.Life.{Life}
use storm_tape.Service.Recalling.{Reports, IsRecalled, take_over-recalls}
use storm_tape.Tests.{service, quiet, kernel, two_files, request}

abbrev history : List Call
history =
    takes_over 1 6
    ∷ stages (text "t") (λ p. 7) request
    ∷ statuses (text "s") 8
    ∷ cancels (text "s") (text "/a/b" ∷ []) 9
    ∷ []

abbrev disk : Storage
disk = record {
  is_in_progress = λ p. value false;
  file_size_info = λ p. value (record { size = 5; is_stub = false });
  is_on_tape = λ p. value true;
}

abbrev over_disk : TapeService
over_disk = record service { storage = λ calls. disk }

locality-local_storage_example :
    locality (local_storage kernel []) (text "/mnt/1") fresh
    ≡ stat_locality
        (kernel.stat (text "/mnt/1"))
        (attribute (kernel.getxattr [] (text "/mnt/1") tsm_rect))
        (attribute (kernel.getxattr [] (text "/mnt/1") migrated))
locality-local_storage_example = locality-local_storage kernel [] (text "/mnt/1")

-- A kernel that has the attributes that were set, and no other.
abbrev is_set : SetCalls → PhysicalPath → Text → Bool
is_set [] p name = false
is_set ((q, other) ∷ calls) p name = p == q && name == other || is_set calls p name

abbrev answer : Bool → SysCall ℕ
answer b = if b then ret 0 else errno 61

abbrev setting : Kernel
setting = record kernel { getxattr = λ calls p name. answer (is_set calls p name) }

In-is_set :
    (calls : SetCalls) (p : PhysicalPath) (name : Text)
    → In (p, name) calls
    → is_set calls p name ≡ true
In-is_set [] p name m = absurd m
In-is_set ((q, other) ∷ calls) p name (inl e) =
    ground (arith, (==_iff p q).1 (ap (λ x. x.0) e), (==_iff name other).1 (ap (λ x. x.1) e))
In-is_set ((q, other) ∷ calls) p name (inr m) = ground (arith, In-is_set calls p name m)

setting-Reports : Reports setting
setting-Reports calls p m = (0, ap answer (In-is_set calls p tsm_rect m))

abbrev over_files : TapeService
over_files = record service { storage = local_storage setting; kernel = setting }

take_over-recalls_example :
    (need : List PhysicalPath) × (after : World) × (take_over over_files 1 9 two_files
      ≡ (ok need, after))
    × All (IsRecalled over_files after.set_calls) need
take_over-recalls_example =
    take_over-recalls over_files refl setting-Reports quiet 1 9 two_files refl refl
