-- ===== src/Storage/Caching.antt =====
-- ExtendedFileStatus against a description that reads the answers of the storage directly.
use storm_tape.Prelude.{◌≡◌, Bool, true, false, arith, eqb, if◌then◌else◌}
use storm_tape.Model.{PhysicalPath, Locality, FileSizeInfo}
use storm_tape.Storage.{Storage, Answer, value, failure, fresh, locality}

-- Where a file is, from the three answers of the storage.
abbrev by_place : Bool → Answer Bool → Answer Bool → Locality
by_place b p (failure e) = Locality.unavailable
by_place true p (value true) = Locality.tape
by_place true p (value false) = Locality.lost
by_place false (failure e) (value t) = Locality.unavailable
by_place false (value true) (value true) = Locality.tape
by_place false (value true) (value false) = Locality.lost
by_place false (value false) (value true) = Locality.disk_and_tape
by_place false (value false) (value false) = Locality.disk

abbrev pub locality_of : Answer FileSizeInfo → Answer Bool → Answer Bool → Locality
locality_of (failure e) p t = Locality.unavailable
locality_of (value i) p t = if eqb i.size 0 then Locality.none else by_place i.is_stub p t

-- `locality()` of a fresh object is what the answers of the storage say: an answer that fails and is
-- needed makes the file unavailable.
pub locality-eq-locality_of :
    (S : Storage) (path : PhysicalPath)
    → locality S path fresh
      ≡ locality_of (S.file_size_info path) (S.is_in_progress path) (S.is_on_tape path)
unfolding locality
locality-eq-locality_of S path = ground arith
