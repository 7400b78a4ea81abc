-- ===== src/Scanner/Types.antt =====
-- internal/scanner/types.go, and the errors of internal/scanner by the sentinel that `errors.Is`
-- finds in them. An instant of `time.Time` is a number of nanoseconds, 0 for the zero time.
use twin_tidy.Base.{
  ℕ, ◌≡◌, refl, ◌⊎◌, inl, inr, Bool, List, Option, Text, ℤ, Eq, ℕ_discrete, List_ℕ-discrete,
}

abbrev pub Time : Type 0
Time = ℕ

-- A `FileCategory` is a string of its own.
abbrev pub FileCategory : Type 0
FileCategory = Text

-- The 16 bytes of the file ID are one number.
pub record FileIdentity : Type 0 where
  pub volume_serial : ℕ
  pub file_id : ℕ

pub record AuthorizedScope : Type 0 where
  pub root_final_path : Text
  pub root_identity : FileIdentity
  pub root_is_file : Bool

-- The size of a file is never negative.
pub record FileRecord : Type 0 where
  pub path : Text
  pub size : ℕ
  pub created_at : Time
  pub modified_at : Time
  pub category : FileCategory
  pub identity : FileIdentity
  pub link_count : ℕ
  pub named_streams : ℕ
  pub scope : AuthorizedScope

pub record DuplicateGroup : Type 0 where
  pub size : ℕ
  pub hash : Text
  pub files : List FileRecord

pub record ScanOptions : Type 0 where
  pub categories : List (FileCategory × Bool)
  pub user_files_only : Bool
  pub min_file_size : ℤ
  pub excluded_paths : List Text
  pub excluded_extensions : List Text

pub record ScanLimits : Type 0 where
  pub max_roots : ℤ
  pub max_directories : ℤ
  pub max_files : ℤ

pub record RecycleRequest : Type 0 where
  pub group : DuplicateGroup
  pub selected : List FileRecord

pub data RecycleStatus : Type 0 where
  recycled skipped_changed skipped_protected cancelled failed : RecycleStatus

pub data Err : Type 0 where
  file_changed reparse_point hard_linked_file named_stream_file missing_file_id : Err
  missing_scope scope_escape root_changed : Err
  scan_limit_exceeded : Err
  canceled deadline_exceeded not_exist : Err
  recycle_aborted recycle_unsupported source_still_exists hardlink_unsupported : Err
  invalid_selection_policy : Err
  short_write no_progress unexpected_eof : Err
  -- Of the model only: a loop was given too little fuel.
  out_of_fuel : Err
  other : Text → Err

pub record RecycleItemResult : Type 0 where
  pub path : Text
  pub status : RecycleStatus
  pub reason : Option Err

pub record RecycleResult : Type 0 where
  pub items : List RecycleItemResult
  pub request_error : Option Err

unfoldable pub FileIdentity-discrete : Discrete FileIdentity
unfolding ℕ_discrete
FileIdentity-discrete = hlevel ℕ_discrete

instance abbrev pub identity_eq : Eq FileIdentity
identity_eq = record { discrete = FileIdentity-discrete }

unfoldable pub AuthorizedScope-discrete : Discrete AuthorizedScope
unfolding FileIdentity-discrete List_ℕ-discrete
AuthorizedScope-discrete = hlevel (FileIdentity-discrete, List_ℕ-discrete)

instance abbrev pub scope_eq : Eq AuthorizedScope
scope_eq = record { discrete = AuthorizedScope-discrete }

-- `FileIdentity{}`
abbrev pub no_identity : FileIdentity
no_identity = record { volume_serial = 0; file_id = 0 }

-- What a Go function returns besides its error, where the error is nil, or the error.
pub data Result {ℓ} (A : Type ℓ) : Type ℓ where
  err : Err → Result A
  ok : A → Result A

infixl 5 ◌>>=◌ ◌>>◌
abbrev pub ◌>>=◌ {ℓ κ} : {A : Type ℓ} {B : Type κ} → Result A → (A → Result B) → Result B
first >>= next = elim first [ err e ↦ err e | ok a ↦ next a ]

-- A step that returns nothing but its error.
abbrev pub ◌>>◌ {ℓ} : {B : Type ℓ} → Result (Unit {0}) → Result B → Result B
check >> next = elim check [ err e ↦ err e | ok _ ↦ next ]

-- A successful chain of two steps is two successes.
module _ {ℓ κ} {A : Type ℓ} {B : Type κ} where
  pub >>=-eq-ok :
      (first : Result A) (next : A → Result B) {b : B}
      → (first >>= next) ≡ ok b
      → (a : A) × (first ≡ ok a) × (next a ≡ ok b)
  >>=-eq-ok (err e) next h = cc
  >>=-eq-ok (ok a) next h = (a, refl, h)

pub Result-cases {ℓ} :
    {A : Type ℓ} (r : Result A) → ((e : Err) × (r ≡ err e)) ⊎ ((a : A) × (r ≡ ok a))
Result-cases (err e) = inl (e, refl)
Result-cases (ok a) = inr (a, refl)
