-- ===== src/Scanner/Hashing/Content/Consistent.antt =====
-- internal/scanner/engine.go: the two hashes of a file, against what the stages of a scan ask of them.
use twin_tidy.Base.{ℕ, ◌≡◌, sym, ap, ◌∙◌, Bool, Text, length, arith}
use twin_tidy.Scanner.Types.{FileRecord, Result, ok, >>=-eq-ok}
use twin_tidy.Scanner.Platform.{Platform}
use twin_tidy.Scanner.Io.{Os, Gives}
use twin_tidy.Scanner.Snapshot.{FileSnapshot, open_file_snapshot_in_scope}
use twin_tidy.Scanner.Recycle.Verify.Content.{Copies}
use twin_tidy.Scanner.Recycle.Items.Outcome.{Gives-of_ok}
use twin_tidy.Scanner.Groups.{BoundaryKey}
use twin_tidy.Scanner.Groups.Pipeline.{IsConsistent, full_outcome}
use twin_tidy.Scanner.Hashing.{Hashes, boundary_hash, full_hash}
use twin_tidy.Scanner.Hashing.Content.{
  IsReadAs, content_key, boundary_hash-content_key, full_hash-content,
}

module _ (is_windows : Bool) (p : Platform) {W Handle : Type 0} (os : Os W Handle)
    (hashes : Hashes W Handle) (fuel : ℕ) (preimage : Text → Text) where
  -- A file is stable: it has the size of a content, any read of it gives the bytes of that content,
  -- and the preimage of the digest of that content is the content.
  record IsStable (f : FileRecord) : Type 0 where
    pub content : Text
    pub sized : f.size ≡ length content
    pub parts : IsReadAs is_windows p os hashes f content
    pub whole :
        (file : Handle) (snapshot : FileSnapshot) (final : Text) (w w' : W)
        → Gives
            (open_file_snapshot_in_scope is_windows p os f.path f.scope)
            w
            (file, snapshot, final)
            w'
        → (n : ℕ) (c : Text) (v v' : W) → Copies is_windows p os file n v c v'
        → c ≡ content
    pub known : preimage (os.sha256_hex content) ≡ content

  -- The outcomes are those of `boundaryHash` and `fullHash`, each in some world; a file that is
  -- hashed in full is stable and has a boundary hash.
  record IsHashing (boundary_of : FileRecord → Result BoundaryKey)
      (hash_of : FileRecord → Result Text) : Type 0 where
    pub bounded :
        (f : FileRecord) → (w : W) × (boundary_of f ≡ (boundary_hash is_windows p os hashes f w).0)
    pub hashed :
        (f : FileRecord) → (w : W) × (hash_of f ≡ (full_hash is_windows p os hashes fuel f w).0)
    pub stable :
        (f : FileRecord) (d : Text)
        → hash_of f ≡ ok d
        → IsStable f × ((k : BoundaryKey) × (boundary_of f ≡ ok k))

  stable-content :
      (f : FileRecord) (s : IsStable f) (w : W) (d : Text)
      → (full_hash is_windows p os hashes fuel f w).0 ≡ ok d
      → preimage d ≡ s.content
  stable-content f s w d h =
      let (file, snapshot, final, w1, w2, n, c, v, v', opened, copied, digest) =
        full_hash-content is_windows p os hashes fuel f w d _
          (Gives-of_ok is_windows p os (full_hash is_windows p os hashes fuel f) h) in
      let same = s.whole file snapshot final w1 w2 opened n c v v' copied in
      ap preimage (digest ∙ ap os.sha256_hex same) ∙ s.known

  -- Outcomes of `boundaryHash` and `fullHash` on stable files meet the condition that a scan has on
  -- its hashes, when SHA-256 has no collision among the contents of these files.
  IsHashing-IsConsistent :
      (boundary_of : FileRecord → Result BoundaryKey) (hash_of : FileRecord → Result Text)
      → IsHashing boundary_of hash_of
      → IsConsistent boundary_of hash_of
  unfolding full_outcome
  IsHashing-IsConsistent boundary_of hash_of h = record {
    boundary = λ k. content_key is_windows p os hashes (preimage k.hash);
    agrees = λ k f q.
        let (d, hashed, made) = >>=-eq-ok _ _ q in
        let digest : d ≡ k.hash = ground arith in
        let (s, (key, bounded)) = h.stable f d hashed in
        let (w, from) = h.hashed f in
        let (w', from') = h.bounded f in
        let known = stable-content f s w d (sym from ∙ hashed) in
        let is_key =
          boundary_hash-content_key is_windows p os hashes f s.content w' key _ s.sized s.parts (
            Gives-of_ok is_windows p os (boundary_hash is_windows p os hashes f)
              (sym from' ∙ bounded)) in
        bounded
        ∙ ap (λ b. ok b)
            (is_key ∙ ap (content_key is_windows p os hashes) (sym known ∙ ap preimage digest));
  }
