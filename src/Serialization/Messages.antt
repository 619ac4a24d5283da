-- ===== src/Serialization/Messages.antt =====
-- `rmw_serialize` and `rmw_deserialize` on whole messages, alone and one after the other.
use https_github_com_nightdu.Base.{
  ℕ, ◌+◌, ◌%◌, ◌^◌, ◌<◌, ◌≡◌, refl, ap, sym, ◌∙◌, subst, Bool, true, false, none, some, List, map,
  length, get_elem?, ◌⊎◌, inl, inr, if◌then◌else◌, [], ◌∷◌,
}
use https_github_com_nightdu.Platform.{Bytes, ok, is_ok, History, World, done, log, message_resized}
use https_github_com_nightdu.Typesupport.{TypeSupport, Handle, Members, get_type_support, size_of}
use https_github_com_nightdu.Serialization.Codec.{Ucdr, SerializedMessage}
use https_github_com_nightdu.Serialization.Write.{Serial, rmw_serialize}
use https_github_com_nightdu.Serialization.Read.{Filled, rmw_deserialize}
use https_github_com_nightdu.Serialization.Layout.{
  Place, one, many, text, places, code, size_of_places, AllFit, item, put_all,
}
use https_github_com_nightdu.Serialization.Writes.{serialize-Serializes}
use https_github_com_nightdu.Serialization.Reads.{
  AllWithin, IsBounded, fill_all, length-fill_all, deserialize-Deserializes,
}
use https_github_com_nightdu.Serialization.RoundTrip.{
  ReadsBack, AllShort, covered, item-AllItems, fill_all-agrees,
}

-- The table that is found for a type support, under C or else under C++.
abbrev pub Describes : TypeSupport → Members → Type 0
Describes support t =
    (ts : Handle) × ((support.introspection_c ≡ some ts)
      ⊎ ((support.introspection_c ≡ none) × (support.introspection_cpp ≡ some ts)))
    × (ts.table ≡ some t)

get_type_support-Describes :
    (support : TypeSupport) (t : Members) (d : Describes support t) (w : World)
    → get_type_support support w ≡ done (some d.0) w
unfolding get_type_support
get_type_support-Describes support t (ts, inl c, e) w = rw c refl
get_type_support-Describes support t (ts, inr (c, cpp), e) w = rw (c, cpp) refl

-- What the code relies on in `rmw_serialized_message_resize`: success gives the size that was asked
-- for, and a message that has this size already is left as it is.
pub record Resizes {Buffer : Type 0} (ucdr : Ucdr Buffer) : Type 0 where
  pub resize_length :
      (h : History) (m : SerializedMessage) (n : ℕ)
      → is_ok (ucdr.resize h m n).0 ≡ true
      → length (ucdr.resize h m n).1.buffer ≡ n
  pub resize_same :
      (h : History) (m : SerializedMessage) → ucdr.resize h m (length m.buffer) ≡ (ok, m)

AllFit-AllWithin :
    (memory : Bytes) (ps : List Place) → AllFit memory ps → AllWithin (length memory) ps
AllFit-AllWithin memory [] h = tt
AllFit-AllWithin memory (one w at ∷ ps) h = (h.0, AllFit-AllWithin memory ps h.1)
AllFit-AllWithin memory (many w n at ∷ ps) h = (h.0, AllFit-AllWithin memory ps h.1)
AllFit-AllWithin memory (text bound at ∷ ps) h = (h.0.0, AllFit-AllWithin memory ps h.1)

module _ {Buffer : Type 0} (ucdr : Ucdr Buffer) (support : TypeSupport) (t : Members)
    (d : Describes support t) where
  abbrev fields : List Place
  fields = places t 0

  -- `rmw_serialize` of a message whose fields lie within its memory, once the resize succeeded,
  -- always returns: it hands microcdr the fields of the table in their order, nested ones in place,
  -- on the memory of the serialized message, whose length grows by the sizes of the fields from
  -- what the resize left. It returns RMW_RET_OK unless the table itself, not a nested one, has a
  -- member of an unknown type.
  pub rmw_serialize-fields :
      (memory : Bytes) (old fresh : SerializedMessage) (w : World)
      → AllFit memory fields
      → ucdr.resize w.calls old (size_of t) ≡ (ok, fresh)
      → fresh.buffer_length < 2 ^ 64
      → (w' : World) × (rmw_serialize ucdr (some memory) (some support) (some old) w
          ≡ done
              (
                code t,
                some (record {
                  buffer = ucdr.storage (
                      put_all ucdr
                        (ucdr.init_buffer fresh.buffer (size_of t))
                        (map (item memory) fields));
                  buffer_length = (fresh.buffer_length + size_of_places fields) % 2 ^ 64;
                }),
              )
              w')
  unfolding rmw_serialize
  rmw_serialize-fields memory old fresh w fit resized small =
      let w₁ = log (message_resized (size_of t) ok) w in
      let start : Serial Buffer = record {
        writer = ucdr.init_buffer fresh.buffer (size_of t);
        buffer_length = fresh.buffer_length;
      } in
      let (w', e) = serialize-Serializes ucdr memory t 0 start w₁ small fit in
      (w', rw (get_type_support-Describes support t d w, d.2, resized, e) refl)

  -- `rmw_deserialize` into a message whose fields lie within its memory, once the resize succeeded,
  -- always returns, whatever the serialized message holds: it never writes beyond the memory, which
  -- keeps its size, and overwrites the fields of the table, in their order, by what microcdr reads.
  -- It returns RMW_RET_OK unless the table itself, not a nested one, has a member of an unknown type.
  pub rmw_deserialize-fields :
      (bounded : IsBounded ucdr) (target : Bytes) (sent fresh : SerializedMessage) (w : World)
      → AllWithin (length target) fields
      → ucdr.resize w.calls sent (size_of t) ≡ (ok, fresh)
      → let start : Filled Buffer = record {
        memory = target;
        reader = ucdr.init_buffer fresh.buffer (size_of t);
      } in
        (w' : World) × (rmw_deserialize ucdr (some sent) (some support) (some target) w
          ≡ done (code t, some fresh, some (fill_all ucdr start fields).memory) w')
        × (length (fill_all ucdr start fields).memory ≡ length target)
  unfolding rmw_deserialize
  rmw_deserialize-fields bounded target sent fresh w fit resized =
      let w₁ = log (message_resized (size_of t) ok) w in
      let start : Filled Buffer = record {
        memory = target;
        reader = ucdr.init_buffer fresh.buffer (size_of t);
      } in
      let (w', e) = deserialize-Deserializes ucdr bounded t 0 start w₁ fit in
      (
        w',
        rw (get_type_support-Describes support t d w, d.2, resized, e) refl,
        length-fill_all ucdr bounded start fields fit,
      )

  -- A message that `rmw_serialize` wrote, where microcdr found room for it, is read back by
  -- `rmw_deserialize` into any memory of the same size: both return, and then each byte that
  -- belongs to a field of the table is that of the first message, and each other byte, padding and
  -- what the table leaves out, is as it was. Fields lie within the memory and strings are shorter
  -- than their bounds.
  pub rmw_deserialize-rmw_serialize :
      (has_error : Buffer → Bool) (law : ReadsBack ucdr has_error) (bounded : IsBounded ucdr)
      (resizes : Resizes ucdr) (memory target : Bytes) (old fresh : SerializedMessage) (w v : World)
      → length target ≡ length memory
      → AllFit memory fields
      → AllShort memory fields
      → ucdr.resize w.calls old (size_of t) ≡ (ok, fresh)
      → fresh.buffer_length < 2 ^ 64
      → has_error
          (put_all ucdr (ucdr.init_buffer fresh.buffer (size_of t)) (map (item memory) fields))
        ≡ false
      → (sent : SerializedMessage) × (w' : World) × (result : Bytes) × (v' : World) × (rmw_serialize
            ucdr
            (some memory)
            (some support)
            (some old)
            w
          ≡ done (code t, some sent) w')
        × (rmw_deserialize ucdr (some sent) (some support) (some target) v
            ≡ done (code t, some sent, some result) v')
        × ((i : ℕ)
            → get_elem? result i
              ≡ (if covered memory fields i then get_elem? memory i else get_elem? target i))
  rmw_deserialize-rmw_serialize has_error law bounded resizes memory target old fresh w v same fit
        short resized small room =
      let items = map (item memory) fields in
      let written = put_all ucdr (ucdr.init_buffer fresh.buffer (size_of t)) items in
      let sent : SerializedMessage = record {
        buffer = ucdr.storage written;
        buffer_length = (fresh.buffer_length + size_of_places fields) % 2 ^ 64;
      } in
      let start : Filled Buffer = record {
        memory = target;
        reader = ucdr.init_buffer sent.buffer (size_of t);
      } in
      let (w', wrote) = rmw_serialize-fields memory old fresh w fit resized small in
      let fresh_size : length fresh.buffer ≡ size_of t =
        ap (λ a. length a.1.buffer) (sym resized)
        ∙ resizes.resize_length w.calls old (size_of t) (ap (λ a. is_ok a.0) resized) in
      let sent_size : length sent.buffer ≡ size_of t =
        law.storage_length fresh.buffer (size_of t) items ∙ fresh_size in
      let kept : ucdr.resize v.calls sent (size_of t) ≡ (ok, sent) =
        ap (ucdr.resize v.calls sent) (sym sent_size) ∙ resizes.resize_same v.calls sent in
      let within =
        subst (λ n. AllWithin n fields) (sym same) (AllFit-AllWithin memory fields fit) in
      let (v', read, _) = rmw_deserialize-fields bounded target sent sent v within kept in
      (
        sent,
        w',
        (fill_all ucdr start fields).memory,
        v',
        wrote,
        read,
        fill_all-agrees ucdr memory has_error law fresh.buffer (size_of t) items
            (item-AllItems memory fields fit short) room [] fields start refl refl same fit short,
      )
