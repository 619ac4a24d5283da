-- ===== src/Simulation/Tape.antt =====
-- A small microcdr for the tests: a tape on which values stand one behind the other, without
-- alignment, and which remembers whether a value did not fit.
use https_github_com_nightdu.Base.{
  ℕ, zero, suc, ◌+◌, ◌*◌, ◌≤◌, ◌<◌, ◌≡◌, refl, ap, sym, ◌∙◌, Bool, true, false, Option, none, some,
  List, [], ◌∷◌, ◌++◌, length, take, drop, leb, ltb, ◌==◌, if◌then◌else◌, arith, length-append,
  take-append, replicate, Bool-cases, Option-cases, inl, inr,
}
use mathlib.Core.List.{append_assoc}
use https_github_com_nightdu.Platform.{Bytes, ok}
use https_github_com_nightdu.Serialization.Codec.{Ucdr, SerializedMessage, width, c_string}
use https_github_com_nightdu.Serialization.Layout.{
  Item, one_item, many_items, text_item, put, put_all,
}
use https_github_com_nightdu.Serialization.Memory.{length-take, length-drop}
use https_github_com_nightdu.Serialization.Reads.{IsBounded}
use https_github_com_nightdu.Serialization.RoundTrip.{
  stored, HasNoNul, IsItem, AllItems, get_item, skip_all, ReadsBack,
}
use https_github_com_nightdu.Serialization.Messages.{Resizes}

pub record Tape : Type 0 where
  pub front : Bytes
  pub back : Bytes
  pub failed : Bool

abbrev pub write : Bytes → Tape → Tape
write v t =
    if leb (length v) (length t.back)
    then record { front = t.front ++ v; back = drop (length v) t.back; failed = t.failed }
    else record t { failed = true }

-- The first `n` bytes, if there are as many.
abbrev pub read : ℕ → Tape → Bytes × Tape
read n t =
    if leb n (length t.back)
    then (take n t.back, record t { front = t.front ++ take n t.back; back = drop n t.back })
    else ([], record t { failed = true })

abbrev read_text : ℕ → Tape → Bytes × Tape
read_text bound t = upto (c_string t.back)
  where
    upto : Option Bytes → Bytes × Tape
    upto none = ([], record t { failed = true })
    upto (some text) =
        if ltb (length text) bound
        then read (suc (length text)) t
        else ([], record t { failed = true })

abbrev pub resized : SerializedMessage → ℕ → SerializedMessage
resized m n = if n == length m.buffer then m else record {
  buffer = take n (m.buffer ++ replicate n 0);
  buffer_length = if ltb n m.buffer_length then n else m.buffer_length;
}

abbrev pub tape : Ucdr Tape
tape = record {
  init_buffer = λ b n. record { front = []; back = b; failed = false };
  storage = λ t. t.front ++ t.back;
  serialize = λ w v t. write v t;
  serialize_array = λ w n v t. write v t;
  serialize_string = λ v t. write (v ++ 0 ∷ []) t;
  deserialize = λ w t. read (width w) t;
  deserialize_array = λ w n t. read (n * width w) t;
  deserialize_string = read_text;
  resize = λ h m n. (ok, resized m n);
}

read-le : (n : ℕ) (t : Tape) → length (read n t).0 ≤ n
read-le n t = elim (Bool-cases (leb n (length t.back))) [
  | inl fits ↦
      let h : n ≤ length t.back = ground arith in rw fits (omega (arith, length-take n t.back h))
  | inr short ↦ rw short (omega arith)
]

read_text-le : (n : ℕ) (t : Tape) → length (read_text n t).0 ≤ n
read_text-le n t = elim (Option-cases (c_string t.back)) [
  | inl missing ↦ rw missing (omega arith)
  | inr (text, here) ↦ elim (Bool-cases (ltb (length text) n)) [
    | inr long ↦ rw (here, long) (omega arith)
    | inl short ↦
        let h : length text < n = ground arith in
        rw (here, short) (omega (arith, read-le (suc (length text)) t, h))
  ]
]

pub tape-IsBounded : IsBounded tape
tape-IsBounded = record {
  one_le = λ w t. read-le (width w) t;
  many_le = λ w n t. read-le (n * width w) t;
  text_le = read_text-le;
}

length-replicate : (n : ℕ) (a : ℕ) → length (replicate n a) ≡ n
length-replicate zero a = refl
length-replicate (suc n) a = omega (arith, length-replicate n a)

==-refl : (n : ℕ) → (n == n) ≡ true
==-refl n = ground arith

pub tape-Resizes : Resizes tape
tape-Resizes = record {
  resize_length = λ h m n fine. elim (Bool-cases (n == length m.buffer)) [
    | inl same ↦ rw same (ground arith)
    | inr other ↦ rw other (
        length-take n (m.buffer ++ replicate n 0)
          (omega (arith, length-append {0} m.buffer (replicate n 0), length-replicate n 0)))
  ];
  resize_same = λ h m. rw (==-refl (length m.buffer)) refl;
}

-- What the items take up on the tape.
abbrev bytes_of : List Item → Bytes
bytes_of [] = []
bytes_of (i ∷ is) = stored i ++ bytes_of is

put-write : (t : Tape) (i : Item) → put tape t i ≡ write (stored i) t
put-write t (one_item w v) = refl
put-write t (many_items w n v) = refl
put-write t (text_item bound v) = refl

write_failed : (v : Bytes) (t : Tape) → t.failed ≡ true → (write v t).failed ≡ true
write_failed v t h = ground arith

put_all_failed : (is : List Item) (t : Tape) → t.failed ≡ true → (put_all tape t is).failed ≡ true
put_all_failed [] t h = h
put_all_failed (i ∷ is) t h =
    put_all_failed is (put tape t i)
      (ap (λ u. u.failed) (put-write t i) ∙ write_failed (stored i) t h)

storage-put_all :
    (is : List Item) (t : Tape)
    → (put_all tape t is).failed ≡ false
    → (rest : Bytes) × (tape.storage (put_all tape t is) ≡ t.front ++ (bytes_of is ++ rest))
storage-put_all [] t h = (t.back, refl)
storage-put_all (i ∷ is) t h = elim (Bool-cases (leb (length (stored i)) (length t.back))) [
  | inl fits ↦
      let v = stored i in
      let u : Tape = record {
        front = t.front ++ v;
        back = drop (length v) t.back;
        failed = t.failed;
      } in
      let e : put tape t i ≡ u = put-write t i ∙ rw fits refl in
      let (rest, same) = storage-put_all is u (sym (ap (λ x. (put_all tape x is).failed) e) ∙ h) in
      (
        rest,
        ap (λ x. tape.storage (put_all tape x is)) e
            ∙ same
            ∙ append_assoc t.front v (bytes_of is ++ rest)
            ∙ ap (λ l. t.front ++ l) (sym (append_assoc v (bytes_of is) rest)),
      )
  | inr short ↦
      let late : (put tape t i).failed ≡ true =
        ap (λ u. u.failed) (put-write t i) ∙ rw short refl in
      let never = put_all_failed is (put tape t i) late in absurd (ground (arith, never, h))
]

length-write : (v : Bytes) (t : Tape) → length (tape.storage (write v t)) ≡ length (tape.storage t)
length-write v t = elim (Bool-cases (leb (length v) (length t.back))) [
  | inl fits ↦
      let h : length v ≤ length t.back = ground arith in
      rw fits (
        omega (
          arith,
          h,
          length-append {0} (t.front ++ v) (drop (length v) t.back),
          length-append {0} t.front v,
          length-append {0} t.front t.back,
          length-drop (length v) t.back,
        ))
  | inr short ↦ rw short refl
]

length-put_all :
    (is : List Item) (t : Tape)
    → length (tape.storage (put_all tape t is)) ≡ length (tape.storage t)
length-put_all [] t = refl
length-put_all (i ∷ is) t =
    length-put_all is (put tape t i)
    ∙ ap (λ u. length (tape.storage u)) (put-write t i)
    ∙ length-write (stored i) t

drop-append : (n : ℕ) (xs ys : Bytes) → length xs ≡ n → drop n (xs ++ ys) ≡ ys
drop-append zero [] ys h = refl
drop-append zero (x ∷ xs) ys h = absurd (omega arith)
drop-append (suc n) [] ys h = absurd (omega arith)
drop-append (suc n) (x ∷ xs) ys h = drop-append n xs ys (omega arith)

c_string-HasNoNul : (v rest : Bytes) → HasNoNul v → c_string (v ++ 0 ∷ [] ++ rest) ≡ some v
c_string-HasNoNul [] rest h = refl
c_string-HasNoNul (b ∷ v) rest h = rw (h.0, c_string-HasNoNul v rest h.1) refl

-- A tape on which some bytes stand next gives them, and then what stands behind them.
abbrev Gives : Bytes × Tape → Bytes → Bytes → Type 0
Gives answer v rest = (answer.0 ≡ v) × (answer.1.back ≡ rest)

read_lem :
    (n : ℕ) (v rest : Bytes) (t : Tape)
    → length v ≡ n
    → t.back ≡ v ++ rest
    → Gives (read n t) v rest
read_lem n v rest t size e =
    let len : length t.back ≡ length v + length rest = ap length e ∙ length-append v rest in
    let fits : leb n (length t.back) ≡ true = ground (arith, len) in
    rw fits (ap (take n) e ∙ take-append n v rest size, ap (drop n) e ∙ drop-append n v rest size)

get_item_lem :
    (i : Item) (rest : Bytes) (t : Tape)
    → IsItem i
    → t.back ≡ stored i ++ rest
    → Gives (get_item tape i t) (stored i) rest
get_item_lem (one_item w v) rest t h e = read_lem (width w) v rest t h e
get_item_lem (many_items w n v) rest t h e = read_lem (n * width w) v rest t h e
get_item_lem (text_item bound v) rest t h e =
    let here : c_string t.back ≡ some v = ap c_string e ∙ c_string-HasNoNul v rest h.1 in
    let short : ltb (length v) bound ≡ true = ground (arith, h.0) in
    rw (here, short)
      (read_lem (suc (length v)) (v ++ 0 ∷ []) rest t (omega (arith, length-append {0} v (0 ∷ [])))
        e)

skip_all-back :
    (pre : List Item) (i : Item) (post : List Item) (rest : Bytes) (t : Tape)
    → AllItems (pre ++ i ∷ post)
    → t.back ≡ bytes_of (pre ++ i ∷ post) ++ rest
    → (get_item tape i (skip_all tape t pre)).0 ≡ stored i
skip_all-back [] i post rest t all e =
    (get_item_lem i (bytes_of post ++ rest) t all.0
      (e ∙ append_assoc (stored i) (bytes_of post) rest)).0
skip_all-back (j ∷ pre) i post rest t all e =
    let more = bytes_of (pre ++ i ∷ post) in
    skip_all-back pre i post rest (get_item tape j t).1 all.1
      (get_item_lem j (more ++ rest) t all.0 (e ∙ append_assoc (stored j) more rest)).1

pub tape-ReadsBack : ReadsBack tape (λ t. t.failed)
tape-ReadsBack = record {
  reads_back = λ buffer size pre i post all room.
      let (rest, e) = storage-put_all (pre ++ i ∷ post) (tape.init_buffer buffer size) room in
      skip_all-back pre i post rest _ all e;
  storage_length = λ buffer size is. length-put_all is (tape.init_buffer buffer size);
}
