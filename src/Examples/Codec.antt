-- ===== src/Examples/Codec.antt =====
-- A wire in the place of `json`, `str.encode` and `zlib`, for the examples: values in prefix form.
use decomp_permuter_psyq.Prelude.{
  ℕ, zero, suc, ◌≤◌, ◌≡◌, refl, true, false, Option, none, some, [], ◌∷◌, ◌++◌, ◌==◌, arith, length,
  length-append, append_assoc, append-nil,
}
use decomp_permuter_psyq.Prelude.Int.{pos, negsuc}
use decomp_permuter_psyq.Text.{Text}
use decomp_permuter_psyq.Net.Json.{
  Json, null, bool, int, float, str, array, object, Items, nil, cons, Fields, end, field,
}
use decomp_permuter_psyq.Net.Wire.{Wire}

-- a text with its length in front
abbrev write_text : Text → Text
write_text t = length t ∷ t

unfoldable pub take_text : ℕ → Text → Option (Text × Text)
take_text zero rest = some ([], rest)
take_text (suc n) [] = none
take_text (suc n) (c ∷ rest) = elim (take_text n rest) [
  | none ↦ none
  | some (t, end_part) ↦ some (c ∷ t, end_part)
]

take_text-append : (t rest : Text) → take_text (length t) (t ++ rest) ≡ some (t, rest)
unfolding take_text
take_text-append [] rest = refl
take_text-append (c ∷ t) rest = rw (take_text-append t rest, take_text) refl

abbrev mutual
  pub write : Json ℕ → Text
  write null = 0 ∷ []
  write (bool true) = 1 ∷ []
  write (bool false) = 2 ∷ []
  write (int (pos n)) = 3 ∷ n ∷ []
  write (int (negsuc n)) = 4 ∷ n ∷ []
  write (float x) = 5 ∷ x ∷ []
  write (str s) = 6 ∷ write_text s
  write (array xs) = 7 ∷ write_items xs
  write (object d) = 8 ∷ write_fields d

  write_items : Items ℕ → Text
  write_items nil = 0 ∷ []
  write_items (cons x xs) = 1 ∷ write x ++ write_items xs

  write_fields : Fields ℕ → Text
  write_fields end = 0 ∷ []
  write_fields (field k v d) = 1 ∷ write_text k ++ (write v ++ write_fields d)

unfoldable mutual
  read : ℕ → Text → Option (Json ℕ × Text)
  read zero t = none
  read (suc n) [] = none
  read (suc n) (zero ∷ t) = some (null, t)
  read (suc n) (suc zero ∷ t) = some (bool true, t)
  read (suc n) (suc (suc zero) ∷ t) = some (bool false, t)
  read (suc n) (suc (suc (suc zero)) ∷ k ∷ t) = some (int (pos k), t)
  read (suc n) (suc (suc (suc (suc zero))) ∷ k ∷ t) = some (int (negsuc k), t)
  read (suc n) (suc (suc (suc (suc (suc zero)))) ∷ k ∷ t) = some (float k, t)
  read (suc n) (suc (suc (suc (suc (suc (suc zero))))) ∷ k ∷ t) = elim (take_text k t) [
    | none ↦ none
    | some (s, rest) ↦ some (str s, rest)
  ]
  read (suc n) (suc (suc (suc (suc (suc (suc (suc zero)))))) ∷ t) = elim (read_items n t) [
    | none ↦ none
    | some (xs, rest) ↦ some (array xs, rest)
  ]
  read (suc n) (suc (suc (suc (suc (suc (suc (suc (suc zero))))))) ∷ t) = elim (read_fields n t) [
    | none ↦ none
    | some (d, rest) ↦ some (object d, rest)
  ]
  read (suc n) (c ∷ t) = none

  read_items : ℕ → Text → Option (Items ℕ × Text)
  read_items zero t = none
  read_items (suc n) [] = none
  read_items (suc n) (zero ∷ t) = some (nil, t)
  read_items (suc n) (suc c ∷ t) = elim (read n t) [
    | none ↦ none
    | some (x, rest) ↦ elim (read_items n rest) [
      | none ↦ none
      | some (xs, last) ↦ some (cons x xs, last)
    ]
  ]

  read_fields : ℕ → Text → Option (Fields ℕ × Text)
  read_fields zero t = none
  read_fields (suc n) [] = none
  read_fields (suc n) (zero ∷ t) = some (end, t)
  read_fields (suc n) (suc c ∷ []) = none
  read_fields (suc n) (suc c ∷ k ∷ t) = elim (take_text k t) [
    | none ↦ none
    | some (key, after) ↦ elim (read n after) [
      | none ↦ none
      | some (v, rest) ↦ elim (read_fields n rest) [
        | none ↦ none
        | some (d, last) ↦ some (field key v d, last)
      ]
    ]
  ]

mutual
  unfolding read

  read-write :
      (n : ℕ) (j : Json ℕ) (rest : Text)
      → length (write j) ≤ n
      → read n (write j ++ rest) ≡ some (j, rest)
  read-write (suc n) null rest h = refl
  read-write (suc n) (bool true) rest h = refl
  read-write (suc n) (bool false) rest h = refl
  read-write (suc n) (int (pos k)) rest h = refl
  read-write (suc n) (int (negsuc k)) rest h = refl
  read-write (suc n) (float x) rest h = refl
  read-write (suc n) (str s) rest h = rw (read, take_text-append s rest) refl
  read-write (suc n) (array xs) rest h =
      rw (read, read_items-write n xs rest (omega (arith, h))) refl
  read-write (suc n) (object d) rest h =
      rw (read, read_fields-write n d rest (omega (arith, h))) refl
  read-write zero null rest h = absurd (omega (arith, h))
  read-write zero (bool true) rest h = absurd (omega (arith, h))
  read-write zero (bool false) rest h = absurd (omega (arith, h))
  read-write zero (int (pos k)) rest h = absurd (omega (arith, h))
  read-write zero (int (negsuc k)) rest h = absurd (omega (arith, h))
  read-write zero (float x) rest h = absurd (omega (arith, h))
  read-write zero (str s) rest h = absurd (omega (arith, h))
  read-write zero (array xs) rest h = absurd (omega (arith, h))
  read-write zero (object d) rest h = absurd (omega (arith, h))

  read_items-write :
      (n : ℕ) (xs : Items ℕ) (rest : Text)
      → length (write_items xs) ≤ n
      → read_items n (write_items xs ++ rest) ≡ some (xs, rest)
  read_items-write zero nil rest h = absurd (omega (arith, h))
  read_items-write zero (cons x xs) rest h = absurd (omega (arith, h))
  read_items-write (suc n) nil rest h = refl
  read_items-write (suc n) (cons x xs) rest h =
      let size = length-append (write x) (write_items xs) in
      rw
        (
          read,
          append_assoc (write x) (write_items xs) rest,
          read-write n x (write_items xs ++ rest) (omega (arith, h, size)),
          read_items-write n xs rest (omega (arith, h, size)),
        )
        refl

  read_fields-write :
      (n : ℕ) (d : Fields ℕ) (rest : Text)
      → length (write_fields d) ≤ n
      → read_fields n (write_fields d ++ rest) ≡ some (d, rest)
  read_fields-write zero end rest h = absurd (omega (arith, h))
  read_fields-write zero (field k v d) rest h = absurd (omega (arith, h))
  read_fields-write (suc n) end rest h = refl
  read_fields-write (suc n) (field k v d) rest h =
      let size = length-append k (write v ++ write_fields d) in
      let size' = length-append (write v) (write_fields d) in
      rw
        (
          append_assoc k (write v ++ write_fields d) rest,
          append_assoc (write v) (write_fields d) rest,
          read_fields,
          take_text-append k (write v ++ (write_fields d ++ rest)),
          read-write n v (write_fields d ++ rest) (omega (arith, h, size, size')),
          read_fields-write n d rest (omega (arith, h, size, size')),
        )
        refl

whole : (j : Json ℕ) → read (length (write j)) (write j) ≡ some (j, [])
whole j = rw (append-nil (write j)) at (read-write (length (write j)) j [] (omega arith))

unfoldable pub loads : Text → Option (Json ℕ)
unfolding read take_text
loads t = elim (read (length t) t) [ none ↦ none | some (j, rest) ↦ some j ]

pub loads-write_fields : (d : Fields ℕ) → loads (write (object d)) ≡ some (object d)
unfolding loads
loads-write_fields d = rw (whole (object d), loads) refl

abbrev pub plain_wire : Wire ℕ
plain_wire = record {
  dumps = λ d. write (object d);
  loads = loads;
  loads-dumps = loads-write_fields;
  encode = λ t. t;
  decode = some;
  decode-encode = λ t. refl;
  compress = λ t. t;
  decompress = some;
  is_one = λ x. x == 1;
  decompress-compress = λ t. refl;
}
