-- ===== src/Context/Copies.antt =====
-- What `rmw_init_options_copy` leaves behind: the copy, and the text that it duplicates.
use https_github_com_nightdu.Base.{
  ◌≡◌, refl, true, false, not, Option, none, some, is_some, ◌&&◌, List, [], ◌∷◌, ◌++◌, inl, inr,
  Bool-cases, Option-cases, arith,
}
use https_github_com_nightdu.Platform.{
  RmwRet, ok, is_ok, Identifier, null_identifier, rmw_hazcat_identifier, identifier_function,
  other_identifier, is_foreign, is_null_identifier, CString, InitOptions, Call, text_duplicated,
  text_deallocated, History, Env, World, Outcome, done,
}
use https_github_com_nightdu.Context.{rmw_init_options_copy}

abbrev texts : Option CString → List CString
texts none = []
texts (some t) = t ∷ []

abbrev add_duplicate : Call → List CString → List CString
add_duplicate (text_duplicated src t) ts = texts t ++ ts
add_duplicate (text_deallocated t) ts = ts
add_duplicate _ ts = ts

abbrev add_dropped : Call → List CString → List CString
add_dropped (text_deallocated t) ts = texts t ++ ts
add_dropped (text_duplicated src t) ts = ts
add_dropped _ ts = ts

-- The texts that were duplicated, newest first, and those that were deallocated.
abbrev duplicates : History → List CString
duplicates [] = []
duplicates (c ∷ h) = add_duplicate c (duplicates h)

abbrev pub dropped : History → List CString
dropped [] = []
dropped (c ∷ h) = add_dropped c (dropped h)

-- The ways in which copying the options `s` to `d` ends.
pub data Copy (s d : InitOptions) (w w' : World) : RmwRet × Option InitOptions → Type 0 where
  copied :
      (o : InitOptions)
      → o ≡ record s { enclave = o.enclave; security_options = o.security_options }
      → is_some o.enclave ≡ is_some s.enclave
      → duplicates w'.calls ≡ texts o.enclave ++ duplicates w.calls
      → dropped w'.calls ≡ dropped w.calls
      → Copy s d w w' (ok, some o)
  given_up :
      (r : RmwRet) (enclave : Option CString)
      → is_ok r ≡ false
      → duplicates w'.calls ≡ texts enclave ++ duplicates w.calls
      → dropped w'.calls ≡ texts enclave ++ dropped w.calls
      → Copy s d w w' (r, some d)

abbrev pub Copies :
    InitOptions → InitOptions → World → Outcome (RmwRet × Option InitOptions) → Type 0
Copies s d w out =
    (a : RmwRet × Option InitOptions) × (w' : World) × (out ≡ done a w') × Copy s d w w' a

own_not_null : (i : Identifier) → is_foreign i ≡ false → is_null_identifier i ≡ false
own_not_null null_identifier own = ground arith
own_not_null rmw_hazcat_identifier own = refl
own_not_null identifier_function own = refl
own_not_null (other_identifier n) own = refl

module _ (env : Env) (s d : InitOptions) (w : World)
    (own : is_foreign s.implementation_identifier ≡ false)
    (zero : is_null_identifier d.implementation_identifier ≡ true)
    (valid : s.allocator.is_valid ≡ true) where
  -- Once the text is duplicated, or there is none.
  past_strdup :
      (t : Option CString)
      → env.strdup w.calls s.enclave ≡ t
      → (is_some s.enclave && not (is_some t)) ≡ false
      → is_some t ≡ is_some s.enclave
      → Copies s d w (rmw_init_options_copy env (some s) (some d) w)
  unfolding rmw_init_options_copy
  past_strdup t made fine same =
      let named = own_not_null s.implementation_identifier own in
      let c = env.copy_security (text_duplicated s.enclave t ∷ w.calls) s.security_options in
      elim (Bool-cases (is_ok c.0)) [
        | inl good ↦
            rw (named, own, zero, valid, made, fine, good)
              (_, _, refl, copied _ refl same refl refl)
        | inr bad ↦
            rw (named, own, zero, valid, made, fine, bad) (_, _, refl, given_up _ t bad refl refl)
      ]

  -- Copying options of this library, with an allocator that works, to options without an identifier
  -- always returns. On RMW_RET_OK the copy is equal to the source but for the enclave, which is a
  -- duplicate and missing exactly if the source's is, and the security options; on any other result
  -- the destination is what it was, and each text that was duplicated was deallocated again. Nothing
  -- else is duplicated or deallocated. A duplicate of NULL is NULL.
  pub rmw_init_options_copy-Copies :
      ((h : History) → env.strdup h none ≡ none)
      → Copies s d w (rmw_init_options_copy env (some s) (some d) w)
  unfolding rmw_init_options_copy
  rmw_init_options_copy-Copies null_text =
      let named = own_not_null s.implementation_identifier own in
      elim (Option-cases s.enclave) [
        | inl absent ↦
            past_strdup none (rw absent (null_text w.calls)) (rw absent refl) (rw absent refl)
        | inr (text, given) ↦ elim (Option-cases (env.strdup w.calls s.enclave)) [
          | inl missing ↦
              rw (named, own, zero, valid, missing, given)
                (_, _, refl, given_up _ none refl refl refl)
          | inr (t, made) ↦ past_strdup (some t) made (rw given refl) (rw given refl)
        ]
      ]
