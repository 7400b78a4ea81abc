-- ===== src/Scanner/Hardlink/Buffer.antt =====
-- internal/scanner/hardlink_windows.go: the bytes that `renameByHandle` gives to the system.
use twin_tidy.Base.{
  take, drop, ℕ, zero, suc, ◌+◌, ◌*◌, ◌%◌, ◌/◌, ◌≡◌, ◌<◌, refl, sym, ap, ◌∙◌, List, [], ◌∷◌, ◌++◌,
  length, All, arith,
}

-- `binary.LittleEndian.PutUint32` and `PutUint16`: the lowest byte first.
unfoldable pub little_endian : ℕ → ℕ → List ℕ
little_endian zero n = []
little_endian (suc width) n = n % 256 ∷ little_endian width (n / 256)

unfoldable pub zeros : ℕ → List ℕ
zeros zero = []
zeros (suc n) = 0 ∷ zeros n

unfoldable pub wide_bytes : List ℕ → List ℕ
wide_bytes [] = []
wide_bytes (wide ∷ units) = little_endian 2 wide ++ wide_bytes units

-- `utf16Path[:len(utf16Path)-1]`, without the final 0.
unfoldable pub but_last : List ℕ → List ℕ
but_last [] = []
but_last (wide ∷ []) = []
but_last (wide ∷ next ∷ units) = wide ∷ but_last (next ∷ units)

-- FILE_RENAME_INFO: the length of the name in bytes at 16, the name at 20, a 0 after it.
unfoldable pub rename_buffer : List ℕ → List ℕ
rename_buffer name = zeros 16 ++ (little_endian 4 (length name * 2) ++ (wide_bytes name ++ zeros 2))

-- The layout as the system reads it: a number of bytes, the lowest first, and a list of 16-bit
-- numbers.
unfoldable pub number : List ℕ → ℕ
number [] = 0
number (b ∷ bytes) = b + 256 * number bytes

unfoldable pub wide_units : List ℕ → List ℕ
wide_units [] = []
wide_units (low ∷ []) = []
wide_units (low ∷ high ∷ bytes) = (low + 256 * high) ∷ wide_units bytes

unfoldable pub read_name : List ℕ → List ℕ
read_name bytes = wide_units (take (number (take 4 (drop 16 bytes))) (drop 20 bytes))

number-little_endian : (n : ℕ) → n < 4294967296 → number (little_endian 4 n) ≡ n
unfolding number little_endian
number-little_endian n h = omega arith

length-wide_bytes : (name : List ℕ) → length (wide_bytes name) ≡ length name * 2
unfolding wide_bytes little_endian
length-wide_bytes [] = omega arith
length-wide_bytes (wide ∷ name) = let later = length-wide_bytes name in omega arith

wide_units-wide_bytes :
    (name : List ℕ) → All (λ wide. wide < 65536) name → wide_units (wide_bytes name) ≡ name
unfolding wide_units wide_bytes little_endian
wide_units-wide_bytes [] h = refl
wide_units-wide_bytes (wide ∷ name) h =
    let here : wide % 256 + 256 * ((wide / 256) % 256) ≡ wide = (let small = h.0 in omega arith) in
    ap (λ w. w ∷ wide_units (wide_bytes name)) here
    ∙ ap (λ l. wide ∷ l) (wide_units-wide_bytes name h.1)

take-length : (xs ys : List ℕ) → take (length xs) (xs ++ ys) ≡ xs
take-length [] ys = refl
take-length (x ∷ xs) ys = ap (λ l. x ∷ l) (take-length xs ys)

-- The name that the system reads from the buffer is the name that was written, for 16-bit units
-- whose length in bytes has 32 bits.
pub read_name-rename_buffer :
    (name : List ℕ)
    → All (λ wide. wide < 65536) name
    → length name * 2 < 4294967296
    → read_name (rename_buffer name) ≡ name
unfolding read_name rename_buffer zeros little_endian
read_name-rename_buffer name units small =
    ap (λ n. wide_units (take n (wide_bytes name ++ 0 ∷ 0 ∷ [])))
      (number-little_endian (length name * 2) small ∙ sym (length-wide_bytes name))
    ∙ ap wide_units (take-length (wide_bytes name) (0 ∷ 0 ∷ []))
    ∙ wide_units-wide_bytes name units
