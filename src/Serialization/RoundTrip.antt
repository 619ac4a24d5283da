-- ===== src/Serialization/RoundTrip.antt =====
-- What `serialize` wrote, `deserialize` reads back.
use https_github_com_nightdu.Base.{
  ℕ, suc, ◌+◌, ◌*◌, ◌≤◌, ◌<◌, ◌≡◌, refl, ap, sym, ◌∙◌, subst, Bool, true, false, some, List, [],
  ◌∷◌, ◌++◌, map, length, take, drop, get_elem?, leb, ltb, ◌==◌, ◌&&◌, ◌||◌, is_some, Bool-cases,
  Option-cases, inl, inr, if◌then◌else◌, arith,
}
use mathlib.Core.List.{append_assoc}
use https_github_com_nightdu.Platform.{Bytes}
use https_github_com_nightdu.Serialization.Codec.{Ucdr, width, slice, splice, c_string}
use https_github_com_nightdu.Serialization.Read.{Filled}
use https_github_com_nightdu.Serialization.Memory.{
  length-slice, get_elem?-slice, length-splice, splice_below, splice_within, splice_above,
  length-drop,
}
use https_github_com_nightdu.Serialization.Layout.{
  Place, one, many, text, Fits, AllFit, offset_of, Item, one_item, many_items, text_item, item,
  text_at, put_all, get,
}
use https_github_com_nightdu.Serialization.Reads.{fill, fill_all}

-- The bytes of an item as they stand in memory.
abbrev pub stored : Item → Bytes
stored (one_item w v) = v
stored (many_items w n v) = v
stored (text_item bound v) = v ++ 0 ∷ []

abbrev pub HasNoNul : Bytes → Type 0
HasNoNul [] = Unit {0}
HasNoNul (b ∷ bs) = ((b == 0) ≡ false) × HasNoNul bs

-- A value has the size of its type, and a string is shorter than its bound.
abbrev pub IsItem : Item → Type 0
IsItem (one_item w v) = length v ≡ width w
IsItem (many_items w n v) = length v ≡ n * width w
IsItem (text_item bound v) = (length v < bound) × HasNoNul v

abbrev pub AllItems : List Item → Type 0
AllItems [] = Unit {0}
AllItems (i ∷ is) = IsItem i × AllItems is

module _ {Buffer : Type 0} (ucdr : Ucdr Buffer) where
  abbrev pub get_item : Item → Buffer → Bytes × Buffer
  get_item (one_item w v) b = ucdr.deserialize w b
  get_item (many_items w n v) b = ucdr.deserialize_array w n b
  get_item (text_item bound v) b = ucdr.deserialize_string bound b

  -- The reader behind some items.
  abbrev pub skip_all : Buffer → List Item → Buffer
  skip_all b [] = b
  skip_all b (i ∷ is) = skip_all (get_item i b).1 is

-- What the code relies on in microcdr: a reader over the memory of a writer, if no write failed for
-- want of room, gives the items back that were written, when they are read in their order; and the
-- memory keeps its size.
pub record ReadsBack {Buffer : Type 0} (ucdr : Ucdr Buffer) (has_error : Buffer → Bool)
    : Type 0 where
  pub reads_back :
      (buffer : Bytes) (size : ℕ) (pre : List Item) (i : Item) (post : List Item)
      → AllItems (pre ++ i ∷ post)
      → has_error (put_all ucdr (ucdr.init_buffer buffer size) (pre ++ i ∷ post)) ≡ false
      → let written = put_all ucdr (ucdr.init_buffer buffer size) (pre ++ i ∷ post) in
        let start = ucdr.init_buffer (ucdr.storage written) size in
        (get_item ucdr i (skip_all ucdr start pre)).0 ≡ stored i
  pub storage_length :
      (buffer : Bytes) (size : ℕ) (is : List Item)
      → length (ucdr.storage (put_all ucdr (ucdr.init_buffer buffer size) is)) ≡ length buffer

-- The strings among some places are shorter than their bounds.
abbrev IsShort : Bytes → Place → Type 0
IsShort memory (one w at) = Unit {0}
IsShort memory (many w n at) = Unit {0}
IsShort memory (text bound at) = length (text_at memory at) < bound

abbrev pub AllShort : Bytes → List Place → Type 0
AllShort memory [] = Unit {0}
AllShort memory (p ∷ ps) = IsShort memory p × AllShort memory ps

-- The bytes that a place takes up, of a string those up to its NUL.
abbrev extent : Bytes → Place → ℕ
extent memory (one w at) = width w
extent memory (many w n at) = n * width w
extent memory (text bound at) = suc (length (text_at memory at))

-- Byte `i` belongs to one of the places.
abbrev pub covered : Bytes → List Place → ℕ → Bool
covered memory [] i = false
covered memory (p ∷ ps) i =
    (leb (offset_of p) i && ltb i (offset_of p + extent memory p)) || covered memory ps i

c_string-stored :
    (xs t : Bytes)
    → c_string xs ≡ some t
    → (t ++ 0 ∷ [] ≡ take (suc (length t)) xs) × HasNoNul t × (suc (length t) ≤ length xs)
c_string-stored [] t h = absurd (ground arith)
c_string-stored (b ∷ bs) t h = elim (Bool-cases (b == 0)) [
  | inl zero_b ↦
      let e : t ≡ [] = ground arith in
      let z : b ≡ 0 = ground arith in rw (e, z) (refl, tt, omega arith)
  | inr other ↦ elim (Option-cases (c_string bs)) [
    | inl missing ↦ absurd (ground arith)
    | inr (u, here) ↦
        let e : t ≡ b ∷ u = ground arith in
        let (same, clean, fits) = c_string-stored bs u here in
        rw e (ap (λ l. b ∷ l) same, (other, clean), omega arith)
  ]
]

module _ (memory : Bytes) where
  c_string-some :
      (at : ℕ)
      → is_some (c_string (drop at memory)) ≡ true
      → c_string (drop at memory) ≡ some (text_at memory at)
  c_string-some at h = elim (Option-cases (c_string (drop at memory))) [
    | inl missing ↦ absurd (ground arith)
    | inr (t, here) ↦ rw here refl
  ]

  stored-item :
      (p : Place)
      → Fits memory p
      → IsShort memory p
      → (stored (item memory p) ≡ slice memory (offset_of p) (extent memory p))
        × (offset_of p + extent memory p ≤ length memory)
        × IsItem (item memory p)
  stored-item (one w at) fit short = (refl, fit, length-slice memory at (width w) fit)
  stored-item (many w n at) fit short = (refl, fit, length-slice memory at (n * width w) fit)
  stored-item (text bound at) fit short =
      let (same, clean, fits) =
        c_string-stored (drop at memory) (text_at memory at) (c_string-some at fit.1) in
      (same, omega (arith, length-drop at memory, fits), (short, clean))

  -- Overwriting a part of `x` by that of the memory.
  splice-slice :
      (x : Bytes) (at n i : ℕ)
      → length x ≡ length memory
      → at + n ≤ length memory
      → get_elem? (splice x at (slice memory at n)) i
        ≡ (if leb at i && ltb i (at + n) then get_elem? memory i else get_elem? x i)
  splice-slice x at n i same fit =
      let v = slice memory at n in
      let e = length-slice memory at n fit in
      elim (Bool-cases (ltb i at)) [
        | inl below ↦
            let less : i < at = ground arith in
            let old = splice_below x at v (omega (arith, e)) i less in ground (arith, old)
        | inr beyond ↦ elim (Bool-cases (ltb i (at + n))) [
          | inl inside ↦
              let lo : at ≤ i = ground arith in
              let hi : i < at + n = ground arith in
              let new =
                splice_within x at v (omega (arith, e)) i lo (omega (arith, e))
                ∙ get_elem?-slice memory at n i lo hi in
              ground (arith, new)
          | inr above ↦
              let hi : at + length v ≤ i = ground (arith, e) in
              let old = splice_above x at v (omega (arith, e)) i hi in ground (arith, old)
        ]
      ]

pub item-AllItems :
    (memory : Bytes) (ps : List Place)
    → AllFit memory ps
    → AllShort memory ps
    → AllItems (map (item memory) ps)
item-AllItems memory [] fit short = tt
item-AllItems memory (p ∷ ps) fit short =
    ((stored-item memory p fit.0 short.0).2, item-AllItems memory ps fit.1 short.1)

module _ {Buffer : Type 0} (ucdr : Ucdr Buffer) (memory : Bytes) where
  skip_all-snoc :
      (b : Buffer) (pre : List Item) (i : Item)
      → skip_all ucdr b (pre ++ i ∷ []) ≡ (get_item ucdr i (skip_all ucdr b pre)).1
  skip_all-snoc b [] i = refl
  skip_all-snoc b (j ∷ pre) i = skip_all-snoc (get_item ucdr j b).1 pre i

  get-item : (p : Place) (b : Buffer) → get ucdr p b ≡ get_item ucdr (item memory p) b
  get-item (one w at) b = refl
  get-item (many w n at) b = refl
  get-item (text bound at) b = refl

  -- The memory that is filled from a reader agrees with the one that was written: where the places
  -- that are left cover a byte, and elsewhere with itself.
  module _ (has_error : Buffer → Bool) (law : ReadsBack ucdr has_error) (buffer : Bytes) (size : ℕ)
      (is : List Item) (all : AllItems is)
      (room : has_error (put_all ucdr (ucdr.init_buffer buffer size) is) ≡ false) where
    abbrev start : Buffer
    start = ucdr.init_buffer (ucdr.storage (put_all ucdr (ucdr.init_buffer buffer size) is)) size

    reads :
        (pre : List Item) (it : Item) (post : List Item)
        → is ≡ pre ++ it ∷ post
        → (get_item ucdr it (skip_all ucdr start pre)).0 ≡ stored it
    reads pre it post e =
        let writer : List Item → Buffer = put_all ucdr (ucdr.init_buffer buffer size) in
        subst
          (λ l.
            (get_item ucdr it
              (skip_all ucdr (ucdr.init_buffer (ucdr.storage (writer l)) size) pre)).0
            ≡ stored it)
          (sym e)
          (law.reads_back buffer size pre it post (subst AllItems e all)
            (subst (λ l. has_error (writer l) ≡ false) e room))

    pub fill_all-agrees :
        (pre : List Item) (qs : List Place) (x : Filled Buffer)
        → is ≡ pre ++ map (item memory) qs
        → x.reader ≡ skip_all ucdr start pre
        → length x.memory ≡ length memory
        → AllFit memory qs
        → AllShort memory qs
        → (i : ℕ)
        → get_elem? (fill_all ucdr x qs).memory i
          ≡ (if covered memory qs i then get_elem? memory i else get_elem? x.memory i)
    fill_all-agrees pre [] x e at_pre same fit short i = refl
    fill_all-agrees pre (p ∷ qs) x e at_pre same fit short i =
        let (bytes, inside, _) = stored-item memory p fit.0 short.0 in
        let it = item memory p in
        let at = offset_of p in
        let n = extent memory p in
        let answer = get-item p x.reader ∙ ap (get_item ucdr it) at_pre in
        let value = ap (λ a. a.0) answer ∙ reads pre it (map (item memory) qs) e ∙ bytes in
        let reader = ap (λ a. a.1) answer ∙ sym (skip_all-snoc start pre it) in
        let len = ap length value ∙ length-slice memory at n inside in
        let same' = length-splice x.memory at (get ucdr p x.reader).0 (omega (arith, len)) ∙ same in
        let written =
          ap (λ v. get_elem? (splice x.memory at v) i) value
          ∙ splice-slice memory x.memory at n i same inside in
        let rest =
          fill_all-agrees (pre ++ it ∷ []) qs (fill ucdr x p)
            (e ∙ sym (append_assoc pre (it ∷ []) (map (item memory) qs))) reader same' fit.1 short.1
            i in
        rest ∙ ground (arith, written)
