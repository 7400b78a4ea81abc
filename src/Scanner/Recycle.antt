-- ===== src/Scanner/Recycle.antt =====
-- internal/scanner/delete.go: the request that names what to recycle, and the checks that it must
-- pass before anything is touched.
pub mod Items
pub mod Keepers
pub mod Validation
pub mod Verify
use twin_tidy.Base.{
  ℕ, ◌≡◌, Bool, true, false, ◌&&◌, ◌||◌, not, Option, none, some, List, [], ◌∷◌, ◌++◌, Text, bytes,
  ◌==◌, text_eq, nat_eq, ltb, leb, if◌then◌else◌, length, contains, map_get, map_set, filter_by,
}
use twin_tidy.Scanner.Types.{
  FileIdentity, identity_eq, scope_eq, no_identity, FileRecord, DuplicateGroup, RecycleRequest, Err,
  other, Result, ok, err, ◌>>=◌, ◌>>◌,
}
use twin_tidy.Scanner.Platform.{Platform}

pub record ValidatedRecycleRequest : Type 0 where
  pub group_hash : Text
  pub selected : List FileRecord
  pub keepers : List FileRecord

-- The members that the first loop has seen: `membersByPath` and `memberIdentities`.
pub record Members : Type 0 where
  pub by_path : List (Text × FileRecord)
  pub identities : List FileIdentity

-- What the second loop has seen: `selectedIdentities`, `selectedPaths` and `selected`.
pub record Selection : Type 0 where
  pub identities : List FileIdentity
  pub paths : List Text
  pub selected : List FileRecord

unfoldable pub reject : Bool → Text → Result (Unit {0})
reject test message = if test then err (other message) else ok tt

is_hex_digit : ℕ → Bool
is_hex_digit c = leb b'0' c && leb c b'9' || leb b'a' c && leb c b'f' || leb b'A' c && leb c b'F'

all_hex : Text → Bool
unfolding is_hex_digit
all_hex [] = true
all_hex (c ∷ s) = is_hex_digit c && all_hex s

-- `hex.DecodeString` succeeds and gives the 32 bytes of a SHA-256 hash.
unfoldable pub is_sha256_hex : Text → Bool
unfolding all_hex
is_sha256_hex hash = all_hex hash && length hash == 64

unfoldable pub no_members : Members
no_members = record { by_path = []; identities = [] }

unfoldable pub no_selection : Selection
no_selection = record { identities = []; paths = []; selected = [] }

-- The members whose identity is not selected.
unfoldable pub keepers_of : List FileRecord → List FileIdentity → List FileRecord
keepers_of files chosen = filter_by (λ member. not (contains member.identity chosen)) files

module _ (p : Platform) where
  unfoldable pub canonical_record_path : Text → Text
  canonical_record_path path = p.lower (p.clean path)

  unfoldable pub same_scanned_record : FileRecord → FileRecord → Bool
  same_scanned_record left right =
      p.equal_fold (p.clean left.path) (p.clean right.path)
      && left.size == right.size
      && left.modified_at == right.modified_at
      && left.identity == right.identity
      && left.link_count == right.link_count
      && left.named_streams == right.named_streams
      && left.scope == right.scope

  is_known : Text → List (Text × FileRecord) → Bool
  is_known path seen = elim (map_get seen path) [ none ↦ false | some _ ↦ true ]

  unfoldable pub check_member : ℕ → FileRecord → Members → Result Members
  unfolding is_known
  check_member size member seen = do
    reject (member.path == [] || member.identity == no_identity)
        (bytes "duplicate group contains a file without stable identity")
    reject (not (member.size == size)) (bytes "duplicate group contains inconsistent file size")
    reject (not (member.link_count == 1) || not (member.named_streams == 0))
        (bytes "duplicate group contains a protected file")
    reject (is_known (canonical_record_path member.path) seen.by_path)
        (bytes "duplicate group repeats a source path")
    reject (contains member.identity seen.identities)
        (bytes "duplicate group repeats a physical file identity")
    ok (record {
      by_path = map_set seen.by_path (canonical_record_path member.path) member;
      identities = member.identity ∷ seen.identities;
    })

  -- `for _, member := range group.Files`
  unfoldable pub check_members : ℕ → List FileRecord → Members → Result Members
  check_members size [] seen = ok seen
  check_members size (member ∷ files) seen = do
    seen' ← check_member size member seen
    check_members size files seen'

  -- The member that the candidate names, which must be the same record.
  unfoldable pub exact_member : List (Text × FileRecord) → FileRecord → Result FileRecord
  exact_member by_path candidate = elim (map_get by_path (canonical_record_path candidate.path)) [
    | none ↦ err (other (bytes "selected file is not an exact member of the scanned group"))
    | some member ↦
        if same_scanned_record member candidate
        then ok member
        else err (other (bytes "selected file is not an exact member of the scanned group"))
  ]

  unfoldable pub check_candidate :
      List (Text × FileRecord) → FileRecord → Selection → Result Selection
  check_candidate by_path candidate seen = do
    member ← exact_member by_path candidate
    reject (contains (canonical_record_path candidate.path) seen.paths)
        (bytes "selected file appears more than once")
    reject (contains candidate.identity seen.identities)
        (bytes "physical file identity appears more than once")
    ok (record {
      identities = candidate.identity ∷ seen.identities;
      paths = canonical_record_path candidate.path ∷ seen.paths;
      selected = seen.selected ++ member ∷ [];
    })

  -- `for _, candidate := range request.Selected`
  unfoldable pub check_selected :
      List (Text × FileRecord) → List FileRecord → Selection → Result Selection
  check_selected by_path [] seen = ok seen
  check_selected by_path (candidate ∷ rest) seen = do
    seen' ← check_candidate by_path candidate seen
    check_selected by_path rest seen'

  unfoldable pub validate_recycle_request : RecycleRequest → Result ValidatedRecycleRequest
  unfolding no_members no_selection
  validate_recycle_request request = do
    let group = request.group
    reject (ltb (length group.files) 2) (bytes "duplicate group must contain at least two files")
    reject (leb (length request.selected) 0) (bytes "no duplicate files were selected")
    reject (not (is_sha256_hex group.hash)) (bytes "duplicate group has an invalid SHA-256 hash")
    seen ← check_members group.size group.files no_members
    chosen ← check_selected seen.by_path request.selected no_selection
    reject (leb (length seen.identities) (length chosen.identities))
        (bytes "at least one distinct physical duplicate must be retained")
    reject (leb (length (keepers_of group.files chosen.identities)) 0)
        (bytes "no distinct keeper remains")
    ok (record {
      group_hash = p.lower group.hash;
      selected = chosen.selected;
      keepers = keepers_of group.files chosen.identities;
    })
