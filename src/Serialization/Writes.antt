-- ===== src/Serialization/Writes.antt =====
-- `serialize` hands microcdr the fields of the message one by one.
use https_github_com_nightdu.Base.{
  subst, ℕ, ◌+◌, ◌*◌, ◌%◌, ◌^◌, ◌≤◌, ◌<◌, ◌≡◌, refl, ap, ap₂, sym, true, List, [], ◌∷◌, ◌++◌,
  length, map, leb, Bool-cases, Option-cases, inl, inr, arith, is_some, drop,
}
use https_github_com_nightdu.Platform.{
  Bytes, RmwRet, ok, invalid_argument, World, Outcome, done, next, ◌>>=◌, run, call, log, error_set,
}
use https_github_com_nightdu.Typesupport.{
  TypeId, bool_t, char_t, byte_t, uint8_t, int8_t, float32_t, float64_t, int16_t, uint16_t, int32_t,
  uint32_t, int64_t, uint64_t, string_t, unknown_t, Field, Members, members, MemberList, nil, leaf,
  message,
}
use https_github_com_nightdu.Serialization.Write.{kind_written}
use https_github_com_nightdu.Serialization.Codec.{
  Ucdr, width, Kind, number, string, unknown, slice, c_string, load, load_string,
}
use https_github_com_nightdu.Serialization.Write.{Serial, put_field, serialize, serialize_members}
use https_github_com_nightdu.Serialization.Layout.{
  kind_of, Place, one, many, text, place_then, places, places_of, code_then, code_of, code,
  size_of_place, size_of_places, AllFit, item, put, put_all, text_at,
}

-- Splitting a list of places.
AllFit-append :
    (memory : Bytes) (ps qs : List Place)
    → AllFit memory (ps ++ qs)
    → AllFit memory ps × AllFit memory qs
AllFit-append memory [] qs h = (tt, h)
AllFit-append memory (p ∷ ps) qs h = let (a, b) = AllFit-append memory ps qs h.1 in ((h.0, a), b)

size_of_places-append :
    (ps qs : List Place) → size_of_places (ps ++ qs) ≡ size_of_places ps + size_of_places qs
size_of_places-append [] qs = omega arith
size_of_places-append (p ∷ ps) qs = omega (arith, size_of_places-append ps qs)

within : (a b : ℕ) → a ≤ b → leb a b ≡ true
within a b h = ground arith

load_lem :
    {R : Type 0} (memory : Bytes) (at n : ℕ) (w : World)
    → at + n ≤ length memory
    → load {R = R} memory at n w ≡ next (slice memory at n) w
load_lem memory at n w h = rw (within (at + n) (length memory) h) refl

load_string_lem :
    {R : Type 0} (memory : Bytes) (at : ℕ) (w : World)
    → is_some (c_string (drop at memory)) ≡ true
    → load_string {R = R} memory at w ≡ next (text_at memory at) w
load_string_lem memory at w h = elim (Option-cases (c_string (drop at memory))) [
  | inl missing ↦ absurd (ground arith)
  | inr (t, here) ↦ rw here refl
]

-- The switch knows each type for what it is.
kind_written_lem : (t : TypeId) → kind_written t ≡ kind_of t
unfolding kind_written kind_of
kind_written_lem bool_t = refl
kind_written_lem char_t = refl
kind_written_lem byte_t = refl
kind_written_lem uint8_t = refl
kind_written_lem int8_t = refl
kind_written_lem float32_t = refl
kind_written_lem float64_t = refl
kind_written_lem int16_t = refl
kind_written_lem uint16_t = refl
kind_written_lem int32_t = refl
kind_written_lem uint32_t = refl
kind_written_lem int64_t = refl
kind_written_lem uint64_t = refl
kind_written_lem string_t = refl
kind_written_lem (unknown_t n) = refl

module _ {Buffer : Type 0} (ucdr : Ucdr Buffer) (memory : Bytes) where
  -- What is left behind after some places were serialized.
  abbrev pub after : Serial Buffer → List Place → Serial Buffer
  after s ps = record {
    writer = put_all ucdr s.writer (map (item memory) ps);
    buffer_length = (s.buffer_length + size_of_places ps) % 2 ^ 64;
  }

  after-nil : (s : Serial Buffer) → s.buffer_length < 2 ^ 64 → after s [] ≡ s
  after-nil s h = ap (λ n. record { writer = s.writer; buffer_length = n }) (omega arith)

  -- One place more.
  abbrev onto : Serial Buffer → Place → Serial Buffer
  onto s p = record {
    writer = put ucdr s.writer (item memory p);
    buffer_length = (s.buffer_length + size_of_place p) % 2 ^ 64;
  }

  after-onto :
      (s : Serial Buffer) (p : Place) (ps : List Place) → after (onto s p) ps ≡ after s (p ∷ ps)
  after-onto s p ps =
      ap
        (λ n. record {
          writer = put_all ucdr s.writer (map (item memory) (p ∷ ps));
          buffer_length = n;
        })
        (omega arith)

  put_all-append :
      (b : Buffer) (ps qs : List Place)
      → put_all ucdr b (map (item memory) (ps ++ qs))
        ≡ put_all ucdr (put_all ucdr b (map (item memory) ps)) (map (item memory) qs)
  put_all-append b [] qs = refl
  put_all-append b (p ∷ ps) qs = put_all-append (put ucdr b (item memory p)) ps qs

  after-append :
      (s : Serial Buffer) (ps qs : List Place) → after (after s ps) qs ≡ after s (ps ++ qs)
  after-append s ps qs =
      ap₂ (λ b n. record { writer = b; buffer_length = n }) (sym (put_all-append s.writer ps qs))
        (omega (arith, size_of_places-append ps qs))

  -- A function that serializes some places and returns a code, from wherever it is called.
  abbrev Serializes :
      (Serial Buffer → World → Outcome (RmwRet × Serial Buffer)) → RmwRet → List Place → Type 0
  Serializes f r ps =
      (s : Serial Buffer) (w : World)
      → s.buffer_length < 2 ^ 64
      → AllFit memory ps
      → (w' : World) × (f s w ≡ done (r, after s ps) w')

  abbrev round :
      Kind
      → Field
      → ℕ
      → (Serial Buffer → World → Outcome (RmwRet × Serial Buffer))
      → Serial Buffer
      → World
      → Outcome (RmwRet × Serial Buffer)
  round k f at rest s = run (put_field ucdr k f memory at s >>= λ s'. call (rest s'))

  round-Serializes :
      (k : Kind) (f : Field) (at : ℕ)
      (rest : Serial Buffer → World → Outcome (RmwRet × Serial Buffer)) (r : RmwRet)
      (more : List Place)
      → Serializes rest r more
      → Serializes (round k f at rest) (code_then k r) (place_then k f at more)
  unfolding put_field place_then code_then
  round-Serializes (number wire) f at rest r more go s w small fit = elim (Bool-cases f.is_array) [
    | inl array ↦
        let p = many wire f.array_size at in
        let fit' : AllFit memory (p ∷ more) = rw array at fit in
        let (w', e) = go (onto s p) w (omega arith) fit'.1 in
        (
          w',
          rw (array, load_lem memory at (f.array_size * width wire) w fit'.0, e)
              (ap (λ x. done (r, x) w') (after-onto s p more)),
        )
    | inr single ↦
        let p = one wire at in
        let fit' : AllFit memory (p ∷ more) = rw single at fit in
        let (w', e) = go (onto s p) w (omega arith) fit'.1 in
        (
          w',
          rw (single, load_lem memory at (width wire) w fit'.0, e)
              (ap (λ x. done (r, x) w') (after-onto s p more)),
        )
  ]
  round-Serializes string f at rest r more go s w small fit = elim (Bool-cases f.is_array) [
    | inl array ↦
        let p = text f.string_upper_bound at in
        let fit' : AllFit memory (p ∷ more) = rw array at fit in
        let (w', e) = go (onto s p) w (omega arith) fit'.1 in
        (
          w',
          rw (array, load_string_lem memory at w fit'.0.1, e)
              (ap (λ x. done (r, x) w') (after-onto s p more)),
        )
    | inr single ↦ let (w', e) = go s w small (rw single at fit) in (w', rw (single, e) refl)
  ]
  round-Serializes unknown f at rest r more go s w small fit = (
    log (error_set "Serializing unknown type") w,
    ap (λ x. done (invalid_argument, x) (log (error_set "Serializing unknown type") w))
        (sym (after-nil s small)),
  )

  mutual
    unfolding serialize places code_of code

    pub serialize-Serializes :
        (t : Members) (base : ℕ)
        → Serializes (serialize ucdr t memory base) (code t) (places t base)
    serialize-Serializes (members size list) base = serialize_members-Serializes list base

    serialize_members-Serializes :
        (list : MemberList) (base : ℕ)
        → Serializes (serialize_members ucdr list memory base) (code_of list) (places_of list base)
    serialize_members-Serializes nil base s w small fit =
        (w, ap (λ x. done (ok, x) w) (sym (after-nil s small)))
    serialize_members-Serializes (message f sub rest) base s w small fit =
        let at = base + f.offset in
        let (fit₁, fit₂) = AllFit-append memory (places sub at) (places_of rest base) fit in
        let (w₁, e₁) = serialize-Serializes sub at s w small fit₁ in
        let s₁ = after s (places sub at) in
        let (w₂, e₂) = serialize_members-Serializes rest base s₁ w₁ (omega arith) fit₂ in
        (
          w₂,
          rw (e₁, e₂)
              (ap (λ x. done (code_of rest, x) w₂)
                (after-append s (places sub at) (places_of rest base))),
        )
    serialize_members-Serializes (leaf t f rest) base s w small fit =
        subst
          (λ k.
            Serializes (round k f (base + f.offset) (serialize_members ucdr rest memory base))
              (code_of (leaf t f rest)) (places_of (leaf t f rest) base))
          (sym (kind_written_lem t))
          (round-Serializes (kind_of t) f (base + f.offset)
            (serialize_members ucdr rest memory base) (code_of rest) (places_of rest base)
            (serialize_members-Serializes rest base))
          s w small fit
