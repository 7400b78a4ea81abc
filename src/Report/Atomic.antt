-- ===== src/Report/Atomic.antt =====
-- internal/report/report.go: the counting writer, and the write of a whole file at once.
pub mod Keeping
pub mod Outcome
use twin_tidy.Base.{
  ℕ, ◌+◌, ◌≡◌, Bool, true, false, not, Option, none, some, [], ◌∷◌, Text, bytes, ◌==◌, nat_eq,
  text_eq, if◌then◌else◌, length,
}
use twin_tidy.Scanner.Types.{Err, ok, err, other, short_write}
use twin_tidy.Scanner.Io.{Io, ◌>>=◌, ◌>>◌}

-- The calls of package os and of the context; `create_temp` gives the open file and its name.
pub record Files (W Handle : Type 0) : Type 0 where
  pub ctx_err : W → Option Err × W
  pub dir : Text → Text
  pub create_temp : Text → Text → Io W (Handle × Text)
  pub write : Handle → Text → W → (ℕ × Option Err) × W
  pub sync : Handle → Io W (Unit {0})
  pub close : Handle → Io W (Unit {0})
  pub remove : Text → Io W (Unit {0})
  pub rename : Text → Text → Io W (Unit {0})

-- `io.Writer`, over the state that a write changes.
abbrev pub Writer : Type 0 → Type 0
Writer S = Text → S → (ℕ × Option Err) × S

module _ {W Handle : Type 0} (files : Files W Handle) where
  unfoldable pub check_files : Io W (Unit {0})
  check_files w =
      let (e, w') = files.ctx_err w in elim e [ none ↦ (ok tt, w') | some e' ↦ (err e', w') ]

  -- The writer has taken `n` bytes of the content.
  unfoldable pub written : Text → ℕ → W → ℕ → (ℕ × Option Err) × (W × ℕ)
  written content n w total =
      if not (n == length content)
      then ((n, some short_write), (w, total))
      else let (e, w') = files.ctx_err w in ((n, e), (w', total))

  -- `contextWriter.Write`, with the world and `bytesWritten`.
  unfoldable pub context_write : Handle → Writer (W × ℕ)
  unfolding written
  context_write file content (w, total) =
      let (e, w1) = files.ctx_err w in
      elim e [
        | some e' ↦ ((0, some e'), (w1, total))
        | none ↦
            let ((n, e2), w2) = files.write file content w1 in
            elim e2 [
              | some e' ↦ ((n, some e'), (w2, total + n))
              | none ↦ written content n w2 (total + n)
            ]
      ]

  -- The complete file is synced and closed.
  unfoldable pub settle : Handle → Io W (Unit {0})
  settle file = do check_files; files.sync file; check_files; files.close file

  -- The closed file takes the place of the destination.
  unfoldable pub publish : Text → Text → Io W (Unit {0})
  publish staging path = do check_files; files.rename staging path

  unfoldable pub remove_quietly : Text → W → W
  remove_quietly name w = (files.remove name w).1

  -- `defer`, where the file has not been closed.
  unfoldable pub abandon : Handle → Text → W → W
  unfolding remove_quietly
  abandon file name w = remove_quietly name (files.close file w).1

  -- What `WriteFileAtomic` does once the staging file is open.
  unfoldable pub write_staged :
      Handle
      → Text
      → Text
      → (Writer (W × ℕ) → (W × ℕ) → Option Err × (W × ℕ))
      → W
      → (ℕ × Option Err) × W
  write_staged file name path produce w =
      let (e, (w1, n)) = produce (context_write file) (w, 0) in
      elim e [
        | some e' ↦ ((n, some e'), abandon file name w1)
        | none ↦
            let (s, w2) = settle file w1 in
            elim s [
              | err e' ↦ ((n, some e'), abandon file name w2)
              | ok _ ↦
                  let (r, w3) = publish name path w2 in
                  elim r [
                    | err e' ↦ ((n, some e'), remove_quietly name w3)
                    | ok _ ↦ ((n, none), w3)
                  ]
            ]
      ]

  unfoldable pub write_file_atomic :
      Text → (Writer (W × ℕ) → (W × ℕ) → Option Err × (W × ℕ)) → W → (ℕ × Option Err) × W
  write_file_atomic path produce w =
      if path == []
      then ((0, some (other (bytes "report path is empty"))), w)
      else let (c, w1) = check_files w in
        elim c [
          | err e ↦ ((0, some e), w1)
          | ok _ ↦
              let (t, w2) = files.create_temp (files.dir path) (bytes ".twintidy-report-*") w1 in
              elim t [
                | err e ↦ ((0, some e), w2)
                | ok found ↦ write_staged found.0 found.1 path produce w2
              ]
        ]
