-- ===== src/Serialization/Reads.antt =====
-- `deserialize` fills the fields of the message one by one, within its memory.
use https_github_com_nightdu.Base.{
  ℕ, ◌+◌, ◌*◌, ◌≤◌, ◌≡◌, refl, ap, sym, ◌∙◌, true, List, [], ◌∷◌, ◌++◌, length, leb, Bool-cases,
  inl, inr, arith, subst,
}
use https_github_com_nightdu.Platform.{
  Bytes, RmwRet, World, Outcome, done, next, ◌>>=◌, run, call, log, error_set,
}
use https_github_com_nightdu.Typesupport.{
  TypeId, bool_t, char_t, byte_t, uint8_t, int8_t, float32_t, float64_t, int16_t, uint16_t, int32_t,
  uint32_t, int64_t, uint64_t, string_t, unknown_t, Field, Members, members, MemberList, nil, leaf,
  message,
}
use https_github_com_nightdu.Serialization.Read.{kind_read}
use https_github_com_nightdu.Serialization.Codec.{
  Ucdr, Wire, width, Kind, number, string, unknown, splice, store,
}
use https_github_com_nightdu.Serialization.Read.{
  Filled, put_down, get_field, deserialize, deserialize_members,
}
use https_github_com_nightdu.Serialization.Memory.{length-splice}
use https_github_com_nightdu.Serialization.Layout.{
  kind_of, Place, one, many, text, place_then, places, places_of, code_then, code_of, code,
  size_of_place, offset_of, get,
}

-- A place lies within the first `n` bytes.
abbrev pub AllWithin : ℕ → List Place → Type 0
AllWithin n [] = Unit {0}
AllWithin n (p ∷ ps) = (offset_of p + size_of_place p ≤ n) × AllWithin n ps

-- microcdr stores no more bytes than it was asked for.
pub record IsBounded {Buffer : Type 0} (ucdr : Ucdr Buffer) : Type 0 where
  pub one_le : (w : Wire) (b : Buffer) → length (ucdr.deserialize w b).0 ≤ width w
  pub many_le :
      (w : Wire) (n : ℕ) (b : Buffer) → length (ucdr.deserialize_array w n b).0 ≤ n * width w
  pub text_le : (n : ℕ) (b : Buffer) → length (ucdr.deserialize_string n b).0 ≤ n

AllWithin-append :
    (n : ℕ) (ps qs : List Place) → AllWithin n (ps ++ qs) → AllWithin n ps × AllWithin n qs
AllWithin-append n [] qs h = (tt, h)
AllWithin-append n (p ∷ ps) qs h = let (a, b) = AllWithin-append n ps qs h.1 in ((h.0, a), b)

within : (a b : ℕ) → a ≤ b → leb a b ≡ true
within a b h = ground arith

store_lem :
    {R : Type 0} (memory : Bytes) (at : ℕ) (bytes : Bytes) (w : World)
    → at + length bytes ≤ length memory
    → store {R = R} memory at bytes w ≡ next (splice memory at bytes) w
store_lem memory at bytes w h = rw (within (at + length bytes) (length memory) h) refl

-- The switch knows each type for what it is.
kind_read_lem : (t : TypeId) → kind_read t ≡ kind_of t
unfolding kind_read kind_of
kind_read_lem bool_t = refl
kind_read_lem char_t = refl
kind_read_lem byte_t = refl
kind_read_lem uint8_t = refl
kind_read_lem int8_t = refl
kind_read_lem float32_t = refl
kind_read_lem float64_t = refl
kind_read_lem int16_t = refl
kind_read_lem uint16_t = refl
kind_read_lem int32_t = refl
kind_read_lem uint32_t = refl
kind_read_lem int64_t = refl
kind_read_lem uint64_t = refl
kind_read_lem string_t = refl
kind_read_lem (unknown_t n) = refl

module _ {Buffer : Type 0} (ucdr : Ucdr Buffer) where
  -- A place is overwritten by what is read next.
  abbrev pub fill : Filled Buffer → Place → Filled Buffer
  fill s p = record {
    memory = splice s.memory (offset_of p) (get ucdr p s.reader).0;
    reader = (get ucdr p s.reader).1;
  }

  abbrev pub fill_all : Filled Buffer → List Place → Filled Buffer
  fill_all s [] = s
  fill_all s (p ∷ ps) = fill_all (fill s p) ps

  fill_all-append :
      (s : Filled Buffer) (ps qs : List Place) → fill_all (fill_all s ps) qs ≡ fill_all s (ps ++ qs)
  fill_all-append s [] qs = refl
  fill_all-append s (p ∷ ps) qs = fill_all-append (fill s p) ps qs

  module _ (bounded : IsBounded ucdr) where
    get-le : (p : Place) (b : Buffer) → length (get ucdr p b).0 ≤ size_of_place p
    get-le (one w at) b = bounded.one_le w b
    get-le (many w n at) b = bounded.many_le w n b
    get-le (text bound at) b = bounded.text_le bound b

    length-fill :
        (s : Filled Buffer) (p : Place)
        → offset_of p + size_of_place p ≤ length s.memory
        → length (fill s p).memory ≡ length s.memory
    length-fill s p h =
        length-splice s.memory (offset_of p) (get ucdr p s.reader).0
          (omega (arith, get-le p s.reader))

    pub length-fill_all :
        (s : Filled Buffer) (ps : List Place)
        → AllWithin (length s.memory) ps
        → length (fill_all s ps).memory ≡ length s.memory
    length-fill_all s [] h = refl
    length-fill_all s (p ∷ ps) h =
        let e = length-fill s p h.0 in
        length-fill_all (fill s p) ps (subst (λ n. AllWithin n ps) (sym e) h.1) ∙ e

    -- A function that fills some places and returns a code, from wherever it is called.
    abbrev Deserializes :
        (Filled Buffer → World → Outcome (RmwRet × Filled Buffer)) → RmwRet → List Place → Type 0
    Deserializes f r ps =
        (s : Filled Buffer) (w : World)
        → AllWithin (length s.memory) ps
        → (w' : World) × (f s w ≡ done (r, fill_all s ps) w')

    abbrev round :
        Kind
        → Field
        → ℕ
        → (Filled Buffer → World → Outcome (RmwRet × Filled Buffer))
        → Filled Buffer
        → World
        → Outcome (RmwRet × Filled Buffer)
    round k f at rest s = run (get_field ucdr k f at s >>= λ s'. call (rest s'))

    -- A round that fills one place, and goes on with the others.
    fill-Deserializes :
        (p : Place) (rest : Filled Buffer → World → Outcome (RmwRet × Filled Buffer)) (r : RmwRet)
        (more : List Place)
        → Deserializes rest r more
        → Deserializes
            (λ s. run (put_down (offset_of p) s (get ucdr p s.reader) >>= λ s'. call (rest s')))
            r
            (p ∷ more)
    fill-Deserializes p rest r more go s w h =
        let (w', e) =
          go (fill s p) w (subst (λ n. AllWithin n more) (sym (length-fill s p h.0)) h.1) in
        (
          w',
          rw
              (
                store_lem s.memory (offset_of p) (get ucdr p s.reader).0 w
                    (omega (arith, h.0, get-le p s.reader)),
                e,
              )
              refl,
        )

    round-Deserializes :
        (k : Kind) (f : Field) (at : ℕ)
        (rest : Filled Buffer → World → Outcome (RmwRet × Filled Buffer)) (r : RmwRet)
        (more : List Place)
        → Deserializes rest r more
        → Deserializes (round k f at rest) (code_then k r) (place_then k f at more)
    unfolding get_field place_then code_then
    round-Deserializes (number wire) f at rest r more go s w h = elim (Bool-cases f.is_array) [
      | inl array ↦
          let (w', e) =
            fill-Deserializes (many wire f.array_size at) rest r more go s w (rw array at h) in
          (w', rw array e)
      | inr single ↦
          let (w', e) = fill-Deserializes (one wire at) rest r more go s w (rw single at h) in
          (w', rw single e)
    ]
    round-Deserializes string f at rest r more go s w h = elim (Bool-cases f.is_array) [
      | inl array ↦
          let (w', e) =
            fill-Deserializes (text f.string_upper_bound at) rest r more go s w (rw array at h) in
          (w', rw array e)
      | inr single ↦ let (w', e) = go s w (rw single at h) in (w', rw (single, e) refl)
    ]
    round-Deserializes unknown f at rest r more go s w h =
        (log (error_set "Serializing unknown type") w, refl)

    mutual
      unfolding deserialize places code_of code

      pub deserialize-Deserializes :
          (t : Members) (base : ℕ) → Deserializes (deserialize ucdr t base) (code t) (places t base)
      deserialize-Deserializes (members size list) base = deserialize_members-Deserializes list base

      deserialize_members-Deserializes :
          (list : MemberList) (base : ℕ)
          → Deserializes (deserialize_members ucdr list base) (code_of list) (places_of list base)
      deserialize_members-Deserializes nil base s w h = (w, refl)
      deserialize_members-Deserializes (message f sub rest) base s w h =
          let at = base + f.offset in
          let ps = places sub at in
          let (h₁, h₂) = AllWithin-append (length s.memory) ps (places_of rest base) h in
          let (w₁, e₁) = deserialize-Deserializes sub at s w h₁ in
          let s₁ = fill_all s ps in
          let h₃ : AllWithin (length s₁.memory) (places_of rest base) =
            subst (λ n. AllWithin n (places_of rest base)) (sym (length-fill_all s ps h₁)) h₂ in
          let (w₂, e₂) = deserialize_members-Deserializes rest base s₁ w₁ h₃ in
          (
            w₂,
            rw (e₁, e₂)
                (ap (λ x. done (code_of rest, x) w₂) (fill_all-append s ps (places_of rest base))),
          )
      deserialize_members-Deserializes (leaf t f rest) base s w h =
          subst
            (λ k.
              Deserializes (round k f (base + f.offset) (deserialize_members ucdr rest base))
                (code_of (leaf t f rest)) (places_of (leaf t f rest) base))
            (sym (kind_read_lem t))
            (round-Deserializes (kind_of t) f (base + f.offset) (deserialize_members ucdr rest base)
              (code_of rest) (places_of rest base) (deserialize_members-Deserializes rest base))
            s w h
