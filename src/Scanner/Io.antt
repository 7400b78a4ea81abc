-- ===== src/Scanner/Io.antt =====
-- The operating system as the scanner sees it. `W` is everything outside the program: the files,
-- the other processes and the cancellation of the context, any of which may change between two
-- calls. A call takes the world and returns its result with the world after it.
use twin_tidy.Base.{ℕ, ◌≡◌, refl, ◌∙◌, Bool, true, false, Option, none, some, Text, arith}
use twin_tidy.Scanner.Types.{Time, FileIdentity, Err, Result, ok, err}

abbrev pub Io : Type 0 → Type 0 → Type 0
Io W A = W → Result A × W

infixl 5 ◌>>=◌ ◌>>◌
unfoldable pub ◌>>=◌ : {W A B : Type 0} → Io W A → (A → Io W B) → Io W B
◌>>=◌ first next w = let (r, w') = first w in elim r [ err e ↦ (err e, w') | ok a ↦ next a w' ]

unfoldable pub ◌>>◌ : {W B : Type 0} → Io W (Unit {0}) → Io W B → Io W B
◌>>◌ first next w = let (r, w') = first w in elim r [ err e ↦ (err e, w') | ok _ ↦ next w' ]

unfoldable pub return : {W A : Type 0} → A → Io W A
return a w = (ok a, w)

abbrev pub throw : {W A : Type 0} → Err → Io W A
throw e w = (err e, w)

-- A guard in front of the rest: `if test { return e }`.
unfoldable pub reject_if : {W : Type 0} → Bool → Err → Io W (Unit {0})
reject_if true e w = (err e, w)
reject_if false e w = (ok tt, w)

-- `fmt.Errorf("%w: …", e, err)`: whatever the error was, `errors.Is` now finds `e`.
unfoldable pub wrapped : {W A : Type 0} → Err → Io W A → Io W A
wrapped e call w = let (r, w') = call w in elim r [ err _ ↦ (err e, w') | ok a ↦ (ok a, w') ]

-- A call whose error path runs `cleanup` first: `_ = file.Close(); return err`.
unfoldable pub on_error : {W A : Type 0} → (W → W) → Io W A → Io W A
on_error cleanup call w =
    let (r, w') = call w in elim r [ err e ↦ (err e, cleanup w') | ok a ↦ (ok a, w') ]

pub record FileInfo : Type 0 where
  pub is_dir : Bool
  pub is_regular : Bool
  pub size : ℕ
  pub mod_time : Time

-- How a read ended: it may go on, it met the end, or it failed.
pub data ReadEnd : Type 0 where
  more eof : ReadEnd
  broken : Err → ReadEnd

-- The calls of package os, of the context, and of the functions behind build tags that only wrap
-- system calls.
pub record Os (W Handle : Type 0) : Type 0 where
  pub ctx_err : W → Option Err × W
  pub open_file : Text → Io W Handle
  pub open_verification_file : Bool → Text → Io W Handle
  pub close : Handle → Io W (Unit {0})
  pub stat : Handle → Io W FileInfo
  pub final_path : Handle → Io W Text
  pub path_identity : Handle → Text → Io W FileIdentity
  pub platform_snapshot : Handle → Text → Io W (FileIdentity × ℕ × ℕ)
  pub no_reparse_components : Text → Io W (Unit {0})
  pub read : Handle → ℕ → W → (Text × ReadEnd) × W
  pub sha256_hex : Text → Text

-- `_ = file.Close()`
abbrev pub close_quietly : {W Handle : Type 0} → Os W Handle → Handle → W → W
close_quietly os file w = (os.close file w).1

-- `if err := ctx.Err(); err != nil { return err }`
unfoldable pub check_ctx : {W Handle : Type 0} → Os W Handle → Io W (Unit {0})
check_ctx os w =
    let (e, w') = os.ctx_err w in elim e [ none ↦ (ok tt, w') | some e' ↦ (err e', w') ]

-- The call succeeds in `w` with `a`, and leaves the world `w'`.
pub record Gives {W A : Type 0} (call : Io W A) (w : W) (a : A) (w' : W) : Type 0 where
  pub run : ◌≡◌ {A = Result A × W} (call w) (ok a, w')

-- A successful chain of two calls is two successful calls, and so on.
module _ {W A : Type 0} where
  bind_cases :
      {B : Type 0} (first : Io W A) (next : A → Io W B) (w : W) (r : Result A × W) (b : B) (w'' : W)
      → first w ≡ r
      → ◌≡◌ {A = Result B × W} (elim r.0 [ err e ↦ (err e, r.1) | ok a ↦ next a r.1 ]) (ok b, w'')
      → (a : A) × (w' : W) × Gives first w a w' × Gives (next a) w' b w''
  bind_cases first next w (err e, w') b w'' e' h = absurd (ground arith)
  bind_cases first next w (ok a, w') b w'' e' h = (a, w', record { run = e' }, record { run = h })

  pub Gives->>= :
      {B : Type 0} (first : Io W A) (next : A → Io W B) {w : W} {b : B} {w'' : W}
      → Gives (first >>= next) w b w''
      → (a : A) × (w' : W) × Gives first w a w' × Gives (next a) w' b w''
  unfolding ◌>>=◌
  Gives->>= first next {w} {b} {w''} h = bind_cases first next w (first w) b w'' refl h.run

  unit_cases :
      (first : Io W Unit) (next : Io W A) (w : W) (r : Result (Unit {0}) × W) (a : A) (w'' : W)
      → first w ≡ r
      → ◌≡◌ {A = Result A × W} (elim r.0 [ err e ↦ (err e, r.1) | ok _ ↦ next r.1 ]) (ok a, w'')
      → (w' : W) × Gives first w tt w' × Gives next w' a w''
  unit_cases first next w (err e, w') a w'' e' h = absurd (ground arith)
  unit_cases first next w (ok _, w') a w'' e' h = (w', record { run = e' }, record { run = h })

  pub Gives->> :
      (first : Io W Unit) (next : Io W A) {w : W} {a : A} {w'' : W}
      → Gives (first >> next) w a w''
      → (w' : W) × Gives first w tt w' × Gives next w' a w''
  unfolding ◌>>◌
  Gives->> first next {w} {a} {w''} h = unit_cases first next w (first w) a w'' refl h.run

  on_error_cases :
      (cleanup : W → W) (call : Io W A) (w : W) (r : Result A × W) (a : A) (w' : W)
      → call w ≡ r
      → ◌≡◌ {A = Result A × W}
          (elim r.0 [ err e ↦ (err e, cleanup r.1) | ok a ↦ (ok a, r.1) ])
          (ok a, w')
      → Gives call w a w'
  on_error_cases cleanup call w (err e, w1) a w' e' h = absurd (ground arith)
  on_error_cases cleanup call w (ok a1, w1) a w' e' h = record { run = e' ∙ h }

  pub Gives-on_error :
      (cleanup : W → W) (call : Io W A) {w : W} {a : A} {w' : W}
      → Gives (on_error cleanup call) w a w'
      → Gives call w a w'
  unfolding on_error
  Gives-on_error cleanup call {w} {a} {w'} h =
      on_error_cases cleanup call w (call w) a w' refl h.run

  pub Gives-return : (a : A) {w : W} {b : A} {w' : W} → Gives (return a) w b w' → a ≡ b
  unfolding return
  Gives-return a h = let e = h.run in ground arith

-- A call that only returns leaves the world alone.
pub Gives-return-same :
    {W A : Type 0} (a : A) {w : W} {b : A} {w' : W} → Gives (return a) w b w' → w ≡ w'
unfolding return
Gives-return-same a h = let e = h.run in ground arith

module _ {W : Type 0} where
  pub Gives-reject_if :
      (test : Bool) (e : Err) {w w' : W} → Gives (reject_if test e) w tt w' → test ≡ false
  unfolding reject_if
  Gives-reject_if true e h = let e' = h.run in absurd (ground arith)
  Gives-reject_if false e h = refl
