-- ===== src/Scanner/Hashing/Content.antt =====
-- internal/scanner/engine.go: the hashes of a file as functions of its content.
pub mod Consistent
use twin_tidy.Base.{
  refl, Bool-cases, inl, inr, true, false, suc, zero, suc, ◌∷◌, ◌%◌, ◌/◌, List, ◌≤◌, ◌⊎◌, ltb, ℕ,
  ◌-◌, ◌≡◌, sym, ap, ◌∙◌, Bool, [], ◌++◌, Text, ◌==◌, nat_eq, length, take, drop, if◌then◌else◌,
  arith,
}
use twin_tidy.Scanner.Types.{FileRecord, Result, ok, err, unexpected_eof}
use twin_tidy.Scanner.Platform.{Platform}
use twin_tidy.Scanner.Io.{
  Io, Os, Gives, Gives->>=, Gives->>, Gives-return, Gives-reject_if, ReadEnd, more, eof, broken,
}
use twin_tidy.Scanner.Snapshot.{
  FileSnapshot, record_matches_snapshot, open_file_snapshot_in_scope, closing,
}
use twin_tidy.Scanner.Recycle.Verify.Content.{Copies, copy_with_context-Gives}
use twin_tidy.Scanner.Groups.{BoundaryKey}
use twin_tidy.Scanner.Hashing.{
  Hashes, size_bytes, boundary_length, read_exactly, check_hashable, hash_ends, boundary_hash,
  hash_all, full_hash,
}

take_all : {A : Type 0} (n : ℕ) (xs : List A) → length xs ≤ n → take n xs ≡ xs
take_all zero [] h = refl
take_all zero (x ∷ xs) h = absurd (omega arith)
take_all (suc n) [] h = refl
take_all (suc n) (x ∷ xs) h = ap (λ l. x ∷ l) (take_all n xs (omega arith))

length-drop : {A : Type 0} (n : ℕ) (xs : List A) → length (drop n xs) ≡ length xs - n
length-drop zero xs = omega arith
length-drop (suc n) [] = omega arith
length-drop (suc n) (x ∷ xs) = length-drop n xs ∙ omega arith

module _ (is_windows : Bool) (p : Platform) {W Handle : Type 0} (os : Os W Handle)
    (hashes : Hashes W Handle) where
  -- The eight bytes of a 64-bit size, the lowest first.
  unfoldable pub size_in_bytes : ℕ → Text
  size_in_bytes n =
      n % 256
      ∷ n / 256 % 256
      ∷ n / 256 / 256 % 256
      ∷ n / 256 / 256 / 256 % 256
      ∷ n / 256 / 256 / 256 / 256 % 256
      ∷ n / 256 / 256 / 256 / 256 / 256 % 256
      ∷ n / 256 / 256 / 256 / 256 / 256 / 256 % 256
      ∷ n / 256 / 256 / 256 / 256 / 256 / 256 / 256 % 256
      ∷ []

  -- The key of a content: its size, and the sum of its size in bytes, of its first 4096 bytes and of
  -- its last 4096 bytes, where a shorter content is both its own start and its own end.
  unfoldable pub content_key : Text → BoundaryKey
  content_key content = record {
    size = length content;
    hash = hashes.sum64 (
        size_in_bytes (length content)
        ++ (take 4096 content ++ drop (length content - 4096) content));
  }

  size_bytes-size_in_bytes : (n : ℕ) → size_bytes 8 n ≡ size_in_bytes n
  unfolding size_bytes size_in_bytes
  size_bytes-size_in_bytes n = refl

  boundary_cases :
      (n : ℕ) → ((n ≤ 4096) × (boundary_length n ≡ n)) ⊎ ((4096 ≤ n) × (boundary_length n ≡ 4096))
  unfolding boundary_length
  boundary_cases n = elim (Bool-cases (ltb n 4096)) [
    | inl short ↦ inl (ground arith, ground arith)
    | inr long ↦ inr (ground arith, ground arith)
  ]

  take-boundary :
      (content : Text) → take (boundary_length (length content)) content ≡ take 4096 content
  take-boundary content = elim (boundary_cases (length content)) [
    | inl (short, same) ↦
        ap (λ n. take n content) same
        ∙ take_all (length content) content (omega arith)
        ∙ sym (take_all 4096 content short)
    | inr (_, same) ↦ ap (λ n. take n content) same
  ]

  take-drop-boundary :
      (content : Text)
      → take
          (boundary_length (length content))
          (drop (length content - boundary_length (length content)) content)
        ≡ drop (length content - 4096) content
  take-drop-boundary content = elim (boundary_cases (length content)) [
    | inl (short, same) ↦
        let all : length content - length content ≡ 0 = omega arith in
        let none : length content - 4096 ≡ 0 = omega arith in
        ap (λ n. take n (drop (length content - n) content)) same
        ∙ ap (λ n. take (length content) (drop n content)) all
        ∙ take_all (length content) content (omega arith)
        ∙ sym (ap (λ n. drop n content) none)
    | inr (long, same) ↦
        ap (λ n. take n (drop (length content - n) content)) same
        ∙ take_all 4096 (drop (length content - 4096) content)
            (omega (arith, length-drop (length content - 4096) content))
  ]

  abbrev keyed : ℕ → Text → Text → Text → BoundaryKey
  keyed n size head tail = record { size = n; hash = hashes.sum64 (size ++ (head ++ tail)) }

  ends_key : ℕ → Text → Text → BoundaryKey
  ends_key n = keyed n (size_bytes 8 n)

  read_exactly-chunk :
      (file : Handle) (n offset : ℕ) (w : W) (chunk : Text) (w' : W)
      → Gives (read_exactly is_windows p os hashes file n offset) w chunk w'
      → (hashes.read_at file n offset w).0.0 ≡ chunk
  unfolding read_exactly
  read_exactly-chunk file n offset w chunk w' h = go (hashes.read_at file n offset w) h.run
    where
      go :
          (r : (Text × ReadEnd) × W)
          → ◌≡◌ {A = Result Text × W}
              (elim r.0.1 [
                | broken e ↦ (err e, r.1)
                | more ↦ if length r.0.0 == n then (ok r.0.0, r.1) else (err unexpected_eof, r.1)
                | eof ↦ if length r.0.0 == n then (ok r.0.0, r.1) else (err unexpected_eof, r.1)
              ])
              (ok chunk, w')
          → r.0.0 ≡ chunk
      go ((c, broken e), v) q = absurd (ground arith)
      go ((c, more), v) q = ground arith
      go ((c, eof), v) q = ground arith

  closing-Gives :
      {A : Type 0} (file : Handle) (call : Io W A) {w : W} {a : A} {w' : W}
      → Gives (closing is_windows p os file call) w a w'
      → (w'' : W) × Gives call w a w''
  closing-Gives file call {w} h =
      ((call w).1, record { run = ap (λ r. (r, (call w).1)) (ap (λ r. r.0) h.run) })

  check_hashable-size :
      (r : FileRecord) (snapshot : FileSnapshot) {w w' : W}
      → Gives (check_hashable is_windows p os hashes r snapshot) w tt w'
      → snapshot.size ≡ r.size
  unfolding check_hashable record_matches_snapshot
  check_hashable-size r snapshot h =
      let (_, m, _) = Gives->> _ _ h in let matches = Gives-reject_if _ _ m in ground arith

  -- Every read of the file, once it is open, gives the bytes of the content.
  unfoldable pub IsReadAs : FileRecord → Text → Type 0
  IsReadAs r content =
      (file : Handle) (snapshot : FileSnapshot) (final : Text) (w w' : W)
      → Gives (open_file_snapshot_in_scope is_windows p os r.path r.scope) w (file, snapshot, final)
          w'
      → (n offset : ℕ) (v : W) → (hashes.read_at file n offset v).0.0 ≡ take n (drop offset content)

  -- When `boundaryHash` of a file gives a key, and the file has the size of a content and every
  -- read of the open file gives the bytes of that content, the key is the size of the content and
  -- the sum of the size in eight bytes, of its first 4096 bytes and of its last 4096 bytes, each of
  -- which is the whole of a shorter content.
  pub boundary_hash-content_key :
      (r : FileRecord) (content : Text) (w : W) (k : BoundaryKey) (w' : W)
      → r.size ≡ length content
      → IsReadAs r content
      → Gives (boundary_hash is_windows p os hashes r) w k w'
      → k ≡ content_key content
  unfolding boundary_hash hash_ends IsReadAs content_key ends_key
  boundary_hash-content_key r content w k w' sized reads h =
      let (_, _, h1) = Gives->> _ _ h in
      let ((file, snapshot, final), _, opened, h2) = Gives->>= _ _ h1 in
      let (_, h3) = closing-Gives file _ h2 in
      let (_, checked, h4) = Gives->> _ _ h3 in
      let (head, w5, got_head, h5) = Gives->>= _ _ h4 in
      let (_, _, h6) = Gives->> _ _ h5 in
      let (tail, w7, got_tail, h7) = Gives->>= _ _ h6 in
      let (_, _, h8) = Gives->> _ _ h7 in
      let size = check_hashable-size r snapshot checked ∙ sized in
      let head_is =
        sym (read_exactly-chunk file _ _ _ head w5 got_head)
        ∙ reads file snapshot final _ _ opened (boundary_length snapshot.size) 0 _ in
      let tail_is =
        sym (read_exactly-chunk file _ _ _ tail w7 got_tail)
        ∙ reads file snapshot final _ _ opened (boundary_length snapshot.size)
            (snapshot.size - boundary_length snapshot.size) _ in
      sym (Gives-return _ h8)
      ∙ ap (λ x. ends_key snapshot.size x tail) head_is
      ∙ ap (λ x. ends_key snapshot.size (take (boundary_length snapshot.size) (drop 0 content)) x)
          tail_is
      ∙ ap
          (λ n.
            ends_key n (take (boundary_length n) (drop 0 content))
              (take (boundary_length n) (drop (n - boundary_length n) content)))
          size
      ∙ ap
          (λ x. ends_key (length content) x (
            take (boundary_length (length content))
              (drop (length content - boundary_length (length content)) content)))
          (take-boundary content)
      ∙ ap (λ x. ends_key (length content) (take 4096 content) x) (take-drop-boundary content)
      ∙ ap
          (λ b. keyed (length content) b (take 4096 content) (drop (length content - 4096) content))
          (size_bytes-size_in_bytes (length content))

  -- The full hash is the digest of what the reads of the open file gave, up to its end.
  pub full_hash-content :
      (fuel : ℕ) (r : FileRecord) (w : W) (digest : Text) (w' : W)
      → Gives (full_hash is_windows p os hashes fuel r) w digest w'
      → (file : Handle) × (snapshot : FileSnapshot) × (final : Text) × (w1 : W) × (w2 : W) × (n : ℕ)
        × (content : Text) × (v : W) × (v' : W) × Gives
            (open_file_snapshot_in_scope is_windows p os r.path r.scope)
            w1
            (file, snapshot, final)
            w2
        × Copies is_windows p os file n v content v'
        × (digest ≡ os.sha256_hex content)
  unfolding full_hash hash_all
  full_hash-content fuel r w digest w' h =
      let (_, _, h1) = Gives->> _ _ h in
      let ((file, snapshot, final), _, opened, h2) = Gives->>= _ _ h1 in
      let (_, h3) = closing-Gives file _ h2 in
      let (v, _, h4) = Gives->> _ _ h3 in
      let (all, v', copied, h5) = Gives->>= _ _ h4 in
      let (_, _, h6) = Gives->> _ _ h5 in
      let (n, content, copies, same) =
        copy_with_context-Gives is_windows p os file fuel [] copied in
      (
        file,
        snapshot,
        final,
        _,
        _,
        n,
        content,
        v,
        v',
        opened,
        copies,
        sym (Gives-return _ h6) ∙ ap os.sha256_hex (sym same),
      )
